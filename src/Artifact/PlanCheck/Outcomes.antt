-- ===== src/Artifact/PlanCheck/Outcomes.antt =====
-- What the tests, lookups and early returns of `check_consistency` decide.
use argent.Base.{
  ◌≡◌, ◌↔◌, refl, sym, Bool, true, false, Option, none, some, List, [], ◌∷◌, ◌++◌, length, find,
  drop, In, inl, inr, arith, Text, Bytes, Result, ok, err, Bool-cases,
}
use argent.Collections.Order.{eqb_iff, bytes_ord}
use argent.Collections.Slices.{starts_with}
use argent.Artifact.Sil.{SilAbi, SilPlan, SilPlanLaws}
use argent.Artifact.Schema.{ArgentFieldArtifact}
use argent.Artifact.RouteProof.{raise, present}
use argent.Artifact.PlanError.{TemplatePlanError}
use argent.Artifact.PlanCheck.Proofs.{texts_eqb}
use argent.Artifact.PlanCheck.Handle.{ok_or, ensure, layout_eqb}

-- The two sequences of fields agree in number, names and types.
abbrev pub SameLayout : {T : Type 0} → List (Text × T) → List (ArgentFieldArtifact T) → Type 0
SameLayout [] [] = Unit
SameLayout ((name, ty) ∷ fields) (source ∷ sources) =
    ((name ≡ source.name) × (ty ≡ source.ty)) × SameLayout fields sources
SameLayout fields sources = ⊥

pub ensure_ok : {E : Type 0} (b : Bool) (e : E) → ensure b e ≡ ok tt → b ≡ true
ensure_ok true e h = refl
ensure_ok false e h = cc

abbrev pub okay : {A : Type 0} → (E : Type 0) → A → Result A E
okay E a = ok a

pub ok_inj : {A E : Type 0} (a b : A) → okay E a ≡ ok b → a ≡ b
ok_inj a b h = cc

pub ok_or_ok : {A E : Type 0} (e : E) (o : Option A) (a : A) → ok_or e o ≡ ok a → o ≡ some a
ok_or_ok e none a h = cc
ok_or_ok e (some b) a h = cc

pub raise_ok : {A : Type 0} (r : Result A TemplatePlanError) (a : A) → raise r ≡ ok a → r ≡ ok a
raise_ok (ok b) a h = cc
raise_ok (err e) a h = cc

pub present_ok : {A : Type 0} (o : Option A) (a : A) → present o ≡ ok a → o ≡ some a
present_ok none a h = cc
present_ok (some b) a h = cc

pub find-In :
    {A : Type 0} (p : A → Bool) (xs : List A) (a : A) → find p xs ≡ some a → In a xs × (p a ≡ true)
find-In p [] a h = cc
find-In p (x ∷ xs) a h = elim (Bool-cases (p x)) [
  | inl e ↦ let same : x ≡ a = ground arith in (inl (sym same), rw (sym same) e)
  | inr e ↦ let rest = find-In p xs a (ground arith) in (inr rest.0, rest.1)
]

pub texts_eqb_iff : (xs ys : List Text) → (texts_eqb xs ys ≡ true) ↔ (xs ≡ ys)
texts_eqb_iff [] [] = (λ h. refl, λ h. refl)
texts_eqb_iff [] (y ∷ ys) = (λ h. cc, λ h. cc)
texts_eqb_iff (x ∷ xs) [] = (λ h. cc, λ h. cc)
texts_eqb_iff (x ∷ xs) (y ∷ ys) = ground (arith, eqb_iff x y, texts_eqb_iff xs ys)

pub append-drop-of_starts_with :
    (b xs : Bytes) → starts_with b xs ≡ true → b ≡ xs ++ drop (length xs) b
append-drop-of_starts_with b [] h = refl
append-drop-of_starts_with [] (x ∷ xs) h = cc
append-drop-of_starts_with (y ∷ ys) (x ∷ xs) h = ground (arith, append-drop-of_starts_with ys xs)

module _ (S : SilAbi) (P : SilPlan S) (L : SilPlanLaws S P) where
  pub layout_eqb-SameLayout :
      (fields : List (Text × S.TypeArtifact)) (sources : List (ArgentFieldArtifact S.TypeArtifact))
      → layout_eqb P.type_eqb fields sources ≡ true
      → SameLayout fields sources
  layout_eqb-SameLayout [] [] h = tt
  layout_eqb-SameLayout [] (y ∷ ys) h = cc
  layout_eqb-SameLayout (f ∷ fs) [] h = cc
  layout_eqb-SameLayout ((name, ty) ∷ fs) (y ∷ ys) h =
      ground (arith, eqb_iff name y.name, L.type_eqb_iff ty y.ty, layout_eqb-SameLayout fs ys)
