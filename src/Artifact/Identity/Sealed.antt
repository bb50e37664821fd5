-- ===== src/Artifact/Identity/Sealed.antt =====
-- crates/argent-artifact/src/lib.rs: what a verified identity says, and that paths do not enter it.
use argent.Base.{
  ◌≡◌, ◌≢◌, refl, sym, ap, ◌∙◌, ◌↔◌, true, not, List, [], ◌∷◌, arith, if◌then◌else◌, Text, ok, err,
  ◌>>=◌, bind_ok, Bool-cases, inl, inr,
}
use argent.Collections.Order.{eqb, eqb_iff, eqb_refl, bytes_ord}
use argent.Artifact.Sil.{SilAbi}
use argent.Artifact.Schema.{Artifact}
use argent.Artifact.Identity.{artifact_id_mismatch, Hashing, is_empty, computed_id_hex, verify_id}

is_empty_iff : (t : Text) → (is_empty t ≡ true) ↔ (t ≡ [])
is_empty_iff [] = (λ h. refl, λ h. refl)
is_empty_iff (c ∷ rest) = (λ h. cc, λ h. cc)

-- The check of the identity succeeds exactly if the recorded id is not empty and is the computed one.
pub verify_id_iff :
    {S : SilAbi} (H : Hashing S) (a : Artifact S)
    → (verify_id H a ≡ ok tt) ↔ ((a.id ≢ []) × (computed_id_hex H a ≡ ok a.id))
unfolding verify_id
verify_id_iff H a = (
  λ h. elim (Bool-cases (is_empty a.id)) [
    | inl e ↦ absurd (ground arith)
    | inr e ↦
        let h' : (computed_id_hex H a >>= λ expected.
        if not (eqb a.id expected) then err (artifact_id_mismatch a.app expected a.id) else ok tt)
            ≡ ok tt =
          rw (e, verify_id) at h in
        let (expected, computed, done) = bind_ok (computed_id_hex H a) _ tt h' in
        let same : a.id ≡ expected = ground (arith, eqb_iff a.id expected) in
        (λ gone. ground (arith, is_empty_iff a.id), computed ∙ ap ok (sym same))
  ],
  λ k. elim (Bool-cases (is_empty a.id)) [
    | inl e ↦ absurd (k.0 ((is_empty_iff a.id).0 e))
    | inr e ↦ rw (e, verify_id) (rw k.1 (ground (arith, eqb_refl a.id)))
  ],
)

-- An artifact that takes its computed id, if that is not empty, passes the check, wherever its root and
-- its modules lie.
pub verify_id-sealed :
    {S : SilAbi} (H : Hashing S) (a : Artifact S) (id root : Text) (modules : List Text)
    → computed_id_hex H a ≡ ok id
    → id ≢ []
    → verify_id H (record a { id = id; root = root; modules = modules }) ≡ ok tt
unfolding computed_id_hex
verify_id-sealed H a id root modules e inhabited =
    (verify_id_iff H (record a { id = id; root = root; modules = modules })).1 (inhabited, e)
