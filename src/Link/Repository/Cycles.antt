-- ===== src/Link/Repository/Cycles.antt =====
-- DetectCycle of workitem/link/link_repository.go against the links that lead from one work item to
-- another.
use almighty_core.Prelude.{
  ℕ, ◌≡◌, ◌≢◌, sym, ap, ◌∙◌, ◌↔◌, ◌⊎◌, inl, inr, true, List, [], ◌∷◌, arith, ◌==◌, Bool-cases,
  Member, here, there, Member-cons,
}
use almighty_core.Prelude.Int.{negsuc}
use almighty_core.Link.{WorkItemLink}
use almighty_core.Link.Ancestors.{Row, counts, to_ancestors, get_ancestors, working_table}
use almighty_core.Link.Ancestors.Complete.{Above, parent, further, IsKeyed, ancestors_iff}
use almighty_core.Link.Repository.{some_ancestor, detect_cycle}

module _ (links : List WorkItemLink) (ty : ℕ) where
  some_ancestor-Row :
      (t : ℕ) (ws : List Row)
      → some_ancestor (to_ancestors links ty ws) t ≡ true
      → (w : Row) × Member w ws × (w.ancestor ≡ t)
  some_ancestor-Row t [] h = cc
  some_ancestor-Row t (w ∷ ws) h = elim (Bool-cases (w.ancestor == t)) [
    | inl e ↦ (w, here ws, ground arith)
    | inr e ↦ let (v, m, q) = some_ancestor-Row t ws (ground arith) in (v, there w ws m, q)
  ]

  Row-some_ancestor :
      (t : ℕ) {w : Row} {ws : List Row}
      → Member w ws
      → w.ancestor ≡ t
      → some_ancestor (to_ancestors links ty ws) t ≡ true
  Row-some_ancestor t (here ws) e = ground arith
  Row-some_ancestor t (there v ws m) e = ground (arith, Row-some_ancestor t m)

  -- Where ids are unique, the test for a cycle succeeds exactly if links of the type that are not
  -- deleted lead from the new link's target down to its source.
  pub detect_cycle_iff :
      (source target : ℕ)
      → IsKeyed links
      → (detect_cycle links source target ty ≡ true) ↔ Above links ty target source
  unfolding detect_cycle get_ancestors
  detect_cycle_iff source target key =
      let (f, g) = ancestors_iff links ty source target key in
      (
        λ h. f (some_ancestor-Row target (working_table links ty (negsuc 0) (source ∷ [])) h),
        λ a. let (w, m, e) = g a in Row-some_ancestor target m e,
      )

-- `a` is `b` or above it
abbrev pub AtOrAbove : List WorkItemLink → ℕ → ℕ → ℕ → Type 0
AtOrAbove links ty a b = (a ≡ b) ⊎ Above links ty a b

module _ (links : List WorkItemLink) (ty : ℕ) where
  join : {a b c : ℕ} → Above links ty a b → Above links ty b c → Above links ty a c
  join (parent l m y s t) r = further l m y s t r
  join (further l m y s t q) r = further l m y s t (join q r)

  join_or : {a b c : ℕ} → AtOrAbove links ty a b → Above links ty b c → Above links ty a c
  join_or (inl e) r = rw e r
  join_or (inr q) r = join q r

  above_or :
      (l : WorkItemLink)
      → Member l links
      → counts links ty l ≡ true
      → {a b c : ℕ} → l.source_id ≡ a
      → l.target_id ≡ b
      → AtOrAbove links ty b c
      → AtOrAbove links ty a c
  above_or l i y s t (inl e) = inr (parent l i y s (t ∙ e))
  above_or l i y s t (inr r) = inr (further l i y s t r)

  -- a way through a link and on, with what is known of the way on
  extend :
      (n l : WorkItemLink)
      → Member l (n ∷ links)
      → counts (n ∷ links) ty l ≡ true
      → {a b c : ℕ} → l.source_id ≡ a
      → l.target_id ≡ b
      → Above links ty b c ⊎ (AtOrAbove links ty b n.source_id × AtOrAbove links ty n.target_id c)
      → Above links ty a c ⊎ (AtOrAbove links ty a n.source_id × AtOrAbove links ty n.target_id c)
  extend n l m y s t r = elim (Member-cons m) [
    | inl e ↦
        let p : _ ≡ n.source_id = sym s ∙ ap (λ (r : WorkItemLink). r.source_id) e in
        let q : n.target_id ≡ _ = ap (λ (r : WorkItemLink). r.target_id) (sym e) ∙ t in
        elim r [ inl z ↦ inr (inl p, inr (rw q z)) | inr z ↦ inr (inl p, z.1) ]
    | inr i ↦ elim r [
      | inl z ↦ inl (further l i y s t z)
      | inr z ↦ inr (above_or l i y s t z.0, z.1)
    ]
  ]

  -- a way that a new link opens uses the link, or was there before
  split :
      (n : WorkItemLink) {a c : ℕ}
      → Above (n ∷ links) ty a c
      → Above links ty a c ⊎ (AtOrAbove links ty a n.source_id × AtOrAbove links ty n.target_id c)
  split n (parent l m y s t) = elim (Member-cons m) [
    | inl e ↦ inr (
      inl (sym s ∙ ap (λ (r : WorkItemLink). r.source_id) e),
      inl (ap (λ (r : WorkItemLink). r.target_id) (sym e) ∙ t),
    )
    | inr i ↦ inl (parent l i y s t)
  ]
  split n (further l m y s t r) = extend n l m y s t (split n r)

  around :
      (n : WorkItemLink) (x : ℕ)
      → n.source_id ≢ n.target_id
      → AtOrAbove links ty x n.source_id
      → AtOrAbove links ty n.target_id x
      → Above links ty n.target_id n.source_id
  around n x d (inl e) (inl f) = absurd (d (sym e ∙ sym f))
  around n x d (inl e) (inr f) = rw e at f
  around n x d (inr e) f = join_or f e

  -- A link whose source is another item than its target closes no cycle, if the test for cycles
  -- fails and there was none.
  pub closes_no_cycle :
      (n : WorkItemLink) (x : ℕ)
      → n.source_id ≢ n.target_id
      → (¬ Above links ty n.target_id n.source_id)
      → (¬ Above links ty x x)
      → ¬ Above (n ∷ links) ty x x
  closes_no_cycle n x d h k r = elim (split n r) [ inl q ↦ k q | inr z ↦ h (around n x d z.0 z.1) ]
