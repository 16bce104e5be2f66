-- ===== src/WorkItem/Names.antt =====
-- The names of the fields of a type, Fields in workitem/workitemtype.go.
use almighty_core.Prelude.{
  ◌≡◌, refl, ◌⊎◌, inl, inr, false, List, [], ◌∷◌, All, Member, here, there, arith,
}
use almighty_core.Prelude.Texts.{Text, eqb_text}
use almighty_core.Field.Value.{Outcome, ok, err, panic}
use almighty_core.WorkItem.{TypeField}

pub eqb_text_comm : (s t : Text) → eqb_text s t ≡ eqb_text t s
eqb_text_comm [] [] = refl
eqb_text_comm [] (b ∷ t) = refl
eqb_text_comm (a ∷ s) [] = refl
eqb_text_comm (a ∷ s) (b ∷ t) = let h = eqb_text_comm s t in ground arith

pub Outcome-cases :
    {A : Type 0} (o : Outcome A) → ((a : A) × (o ≡ ok a)) ⊎ ((o ≡ err) ⊎ (o ≡ panic))
Outcome-cases (ok a) = inl (a, refl)
Outcome-cases err = inr (inl refl)
Outcome-cases panic = inr (inr refl)

module _ {Float : Type 0} where
  -- no two fields of a type have one name, since they are the entries of a map
  abbrev pub DistinctNames : List (TypeField Float) → Type 0
  DistinctNames [] = Unit
  DistinctNames (f ∷ fs) = All (λ g. eqb_text g.name f.name ≡ false) fs × DistinctNames fs

  pub Member-All :
      (P : TypeField Float → Type 0) {f : TypeField Float} (fs : List (TypeField Float))
      → Member f fs
      → All P fs
      → P f
  Member-All P _ (here fs) (a, b) = a
  Member-All P _ (there g fs m) (a, b) = Member-All P fs m b
