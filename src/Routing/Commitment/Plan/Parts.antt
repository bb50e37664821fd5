-- ===== src/Routing/Commitment/Plan/Parts.antt =====
-- `commitment_plan`: the actors that its loop meets are actors of the graph, and the clone with
-- clique edges is well formed.
use argent.Base.{
  Option-cases, sym, subst, zero, false, Text, ℕ, suc, ◌≡◌, refl, ap, ◌∙◌, inl, inr, true, some,
  List, [], ◌∷◌, arith, get_elem?, Bool-cases, if◌then◌else◌, ◌⊎◌, In,
}
use argent.Collections.Order.{eqb, nat_ord, bytes_ord}
use argent.Collections.BTreeSet
use argent.Collections.BTreeSet.{contains, IsSorted, contains-extend, is_subset}
use argent.Collections.BTreeMap
use argent.Collections.BTreeMap.{get, contains_key, get-insert}
use argent.Routing.Graph.{RouteGraph, IsActor, targets, Emits, add_emit_clique}
use argent.Routing.Graph.Build.{
  IsWellFormed, add_emit_clique-IsWellFormed, add_emit_clique_edges, add_emit_clique_total,
}
use argent.Routing.Needs.Need.{Need, consumed, emitted, inherited}
use argent.Routing.Forest.{Cut}
use argent.Routing.Commitment.{ok, ◌>>=◌, expect}
use argent.Routing.Commitment.Plan.{exposed, share, add_cliques}

abbrev pub Known : RouteGraph → List Text → Type 0
Known g xs = (a : Text) → contains a xs ≡ true → IsActor g a

-- A need is an actor of a well-formed graph.
pub Need-IsActor : (g : RouteGraph) → IsWellFormed g → {a t : Text} → Need g a t → IsActor g t
Need-IsActor g w {a} (consumed {t = t} c) = (w.consumes_known a t c).1
Need-IsActor g w {a} (emitted {t = t} e) = (w.emits_known a t e).1
Need-IsActor g w (inherited e n) = Need-IsActor g w n

pub get-share :
    (cut : Cut) (members : List Text) (cuts : List (Text × Cut)) (a : Text)
    → get a (share cut members cuts) ≡ (if contains a members then some cut else get a cuts)
get-share cut [] cuts a = refl
get-share cut (m ∷ rest) cuts a =
    ground (arith, get-share cut rest (BTreeMap.insert m cut cuts) a, get-insert a m cut cuts)

pub exposed-Known :
    (g : RouteGraph) (acc members : List Text)
    → IsWellFormed g
    → Known g acc
    → Known g (exposed g acc members)
exposed-Known g acc [] w known = known
exposed-Known g acc (m ∷ rest) w known =
    exposed-Known g (BTreeSet.extend acc (targets g.consumes m)) rest w (λ a h.
      elim (Bool-cases (contains a acc)) [
        | inl old ↦ known a old
        | inr new ↦
            (w.consumes_known m a (ground (arith, contains-extend a acc (targets g.consumes m)))).1
      ])

-- The clones with clique edges stay well formed, with the same actors.
pub add_cliques-IsWellFormed :
    (g : RouteGraph) (cohorts : List (List Text))
    → IsWellFormed g
    → ((i : ℕ) (cohort : List Text) → get_elem? cohorts i ≡ some cohort → Known g cohort)
    → (h : RouteGraph) × (add_cliques g cohorts ≡ ok h) × IsWellFormed h × (h.actors ≡ g.actors)
unfolding add_cliques
add_cliques-IsWellFormed g [] w known = (g, refl, w, refl)
add_cliques-IsWellFormed g (cohort ∷ rest) w known =
    let (next, e) = add_emit_clique_total g cohort (known 0 cohort refl) in
    let same = (add_emit_clique_edges g cohort next [] [] e).0 in
    let (h, done, w', same') =
      add_cliques-IsWellFormed next rest (add_emit_clique-IsWellFormed g cohort next w e)
        (λ i c at a m. rw same (known (suc i) c at a m)) in
    (h, ap (λ o. expect o >>= λ n. add_cliques n rest) e ∙ done, w', same' ∙ same)

-- The clones with clique edges keep the edges of the graph, and join the members of every cohort.
pub add_cliques-Emits :
    (g : RouteGraph) (cohorts : List (List Text)) (h : RouteGraph) (a b : Text)
    → add_cliques g cohorts ≡ ok h
    → (Emits g a b → Emits h a b)
      × ((i : ℕ) (cohort : List Text)
          → get_elem? cohorts i ≡ some cohort
          → contains a cohort ≡ true
          → contains b cohort ≡ true
          → eqb b a ≡ false
          → Emits h a b)
unfolding add_cliques
add_cliques-Emits g [] h a b e =
    let same : g ≡ h = ground arith in
    (λ k. subst (λ z. Emits z a b) same k, λ i cohort f m n apart. cc)
add_cliques-Emits g (group ∷ rest) h a b e = elim (Option-cases (add_emit_clique g group)) [
  | inl gone ↦ absurd (ground arith)
  | inr (next, found) ↦
      let (_, _, edge) = add_emit_clique_edges g group next a b found in
      let (keep, joined) = add_cliques-Emits next rest h a b (rw (found, add_cliques) at e) in
      (
        λ k. keep (ground arith),
        λ i cohort f m n apart.
            elim i as (λ i. get_elem? (group ∷ rest) i ≡ some cohort → Emits h a b) [
              | zero ↦ λ f.
                  let same : group ≡ cohort = ground arith in
                  let m' : contains a group ≡ true =
                    subst (λ z. contains a z ≡ true) (sym same) m in
                  let n' : contains b group ≡ true =
                    subst (λ z. contains b z ≡ true) (sym same) n in
                  keep (ground arith)
              | suc i ↦ λ f. joined i cohort f m n apart
            ]
              f,
      )
]

-- An edge of the clones is one of the graph, or joins two members of a cohort.
pub Emits-of_add_cliques :
    (g : RouteGraph) (cohorts : List (List Text)) (h : RouteGraph) (a b : Text)
    → add_cliques g cohorts ≡ ok h
    → Emits h a b
    → Emits g a b
      ⊎ ((cohort : List Text) × In cohort cohorts
          × (contains a cohort ≡ true)
          × (contains b cohort ≡ true))
unfolding add_cliques
Emits-of_add_cliques g [] h a b e k =
    let same : g ≡ h = ground arith in inl (subst (λ z. Emits z a b) (sym same) k)
Emits-of_add_cliques g (group ∷ rest) h a b e k = elim (Option-cases (add_emit_clique g group)) [
  | inl gone ↦ absurd (ground arith)
  | inr (next, found) ↦
      let (_, _, edge) = add_emit_clique_edges g group next a b found in
      elim (Emits-of_add_cliques next rest h a b (rw (found, add_cliques) at e) k) [
        | inr (cohort, i, m, n) ↦ inr (cohort, inr i, m, n)
        | inl older ↦ elim (Bool-cases (contains b (targets g.emits a))) [
          | inl oldest ↦ inl oldest
          | inr new ↦ inr (group, inl refl, ground arith, ground arith)
        ]
      ]
]

-- The clones with clique edges keep what the actors consume.
pub add_cliques-consumes :
    (g : RouteGraph) (cohorts : List (List Text)) (h : RouteGraph)
    → add_cliques g cohorts ≡ ok h
    → h.consumes ≡ g.consumes
unfolding add_cliques
add_cliques-consumes g [] h e = let same : g ≡ h = ground arith in ap (λ z. z.consumes) (sym same)
add_cliques-consumes g (group ∷ rest) h e = elim (Option-cases (add_emit_clique g group)) [
  | inl gone ↦ absurd (ground arith)
  | inr (next, found) ↦
      let (_, kept, _) = add_emit_clique_edges g group next [] [] found in
      add_cliques-consumes next rest h (rw (found, add_cliques) at e) ∙ kept
]
