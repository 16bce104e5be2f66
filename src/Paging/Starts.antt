-- ===== src/Paging/Starts.antt =====
-- Where the pages start that setPagingLinks of controller/paging.go names, for a list of `t` entries
-- shown from offset `o` by pages of `l`.
use native.Mathlib.Decide.{dec_le}
use almighty_core.Prelude.{
  ℕ, ◌+◌, ◌-◌, ◌*◌, ◌/◌, ◌≤◌, ◌<◌, ◌≡◌, refl, ◌⊎◌, inl, inr, arith, ltb, if◌then◌else◌,
}
use almighty_core.Prelude.Int.{ℤ, pos, ◌+ℤ◌, ◌-ℤ◌, ◌*ℤ◌, ◌/ℤ◌, ◌≤ℤ◌, ◌<ℤ◌, sub_ℕ, *ℤ_pos, -ℤ_pos}
use native.Mathlib.Nat.{div-add-mod, mod-lt}
use almighty_core.Paging.{Range, prev_start, last_start, cut}

-- n / l * l is the last multiple of l that does not pass n
div_bounds : (n l : ℕ) → 0 < l → (n / l * l ≤ n) × (n < (n / l + 1) * l)
div_bounds n l h = (grind (arith, div-add-mod n l), grind (arith, div-add-mod n l, mod-lt n h))

+ℤ_pos : (a b : ℕ) → pos a +ℤ pos b ≡ pos (a + b)
unfolding ◌+ℤ◌
+ℤ_pos a b = ground arith

/ℤ_pos : (a b : ℕ) → pos a /ℤ pos b ≡ pos (a / b)
unfolding ◌/ℤ◌
/ℤ_pos a b = refl

-- the number of entries that a retreat from o goes back
abbrev back : ℕ → ℕ → ℕ → ℕ
back o l t = ((o - t) / l + 1) * l

-- the start of the last page, seen from an offset inside the list
abbrev ahead : ℕ → ℕ → ℕ → ℕ
ahead o l t = o + (t - o - 1) / l * l

retreat :
    (o l t : ℕ)
    → t ≤ o
    → pos o -ℤ ((pos o -ℤ pos t) /ℤ pos l +ℤ pos 1) *ℤ pos l ≡ sub_ℕ o (back o l t)
retreat o l t h =
    rw (-ℤ_pos o t h) (rw (/ℤ_pos (o - t) l) (rw +ℤ_pos (rw *ℤ_pos (unfold ◌-ℤ◌ in ground arith))))

cut_sub :
    (a b l : ℕ)
    → cut (sub_ℕ a b) (pos l) ≡ (
        if ltb a b
        then record { start = pos 0; size = sub_ℕ (l + a) b }
        else record { start = pos (a - b); size = pos l })
unfolding cut ◌+ℤ◌
cut_sub a b l = ground arith

prev_start_inside : (o l t : ℕ) → o ≤ t → prev_start (pos o) (pos l) (pos t) ≡ sub_ℕ o l
unfolding prev_start ◌-ℤ◌
prev_start_inside o l t h = ground arith

prev_start_beyond : (o l t : ℕ) → t < o → prev_start (pos o) (pos l) (pos t) ≡ sub_ℕ o (back o l t)
unfolding prev_start
prev_start_beyond o l t h = ground (arith, retreat o l t)

last_start_inside : (o l t : ℕ) → o < t → last_start (pos o) (pos l) (pos t) ≡ pos (ahead o l t)
unfolding last_start
last_start_inside o l t h =
    let k : o ≤ t = omega arith in
    let one : 1 ≤ t - o = omega arith in
    rw (-ℤ_pos t o k)
      (rw (-ℤ_pos (t - o) 1 one) (rw (/ℤ_pos (t - o - 1) l) (rw *ℤ_pos (rw +ℤ_pos (ground arith)))))

last_start_beyond : (o l t : ℕ) → t ≤ o → last_start (pos o) (pos l) (pos t) ≡ sub_ℕ o (back o l t)
unfolding last_start
last_start_beyond o l t h = ground (arith, retreat o l t)

-- A page of at most `l` entries that starts inside a list of `t` entries.
pub record IsPage (r : Range) (l t : ℕ) : Type 0 where
  pub nonneg : pos 0 ≤ℤ r.start
  pub inside : r.start <ℤ pos t
  pub nonempty : pos 1 ≤ℤ r.size
  pub bounded : r.size ≤ℤ pos l

back_bounds : (o l t : ℕ) → 0 < l → t ≤ o → (o < back o l t + t) × (back o l t + t ≤ o + l)
back_bounds o l t h k = let (a, b) = div_bounds (o - t) l h in (grind arith, grind arith)

ahead_bounds : (o l t : ℕ) → 0 < l → o < t → (ahead o l t < t) × (t ≤ ahead o l t + l)
ahead_bounds o l t h k = let (a, b) = div_bounds (t - o - 1) l h in (grind arith, grind arith)

cut-IsPage :
    (o b l t : ℕ) → 0 < t → o < b + t → b + t ≤ o + l → IsPage (cut (sub_ℕ o b) (pos l)) l t
unfolding cut ◌+ℤ◌
cut-IsPage o b l t p h k = ground arith

cut-IsPage_inside : (o l t : ℕ) → 0 < l → 0 < o → o ≤ t → IsPage (cut (sub_ℕ o l) (pos l)) l t
unfolding cut ◌+ℤ◌
cut-IsPage_inside o l t h p k = ground arith

-- the end of a page
abbrev pub stop : Range → ℤ
stop r = r.start +ℤ r.size

-- going back by a page that is cut at 0 ends where the current one starts
cut-stop : (o l : ℕ) → stop (cut (sub_ℕ o l) (pos l)) ≡ pos o
unfolding cut ◌+ℤ◌
cut-stop o l = ground arith

-- a page that starts back from `o` starts before `o`
cut-lt : (o b l : ℕ) → 0 < o → 0 < b → (cut (sub_ℕ o b) (pos l)).start <ℤ pos o
unfolding cut
cut-lt o b l h k = ground arith

-- What the previous link promises, seen from offset `o`.
pub record IsPrev (r : Range) (o l t : ℕ) : Type 0 where
  pub page : IsPage r l t
  pub before : r.start <ℤ pos o
  pub meets : ((o ≤ t) × (stop r ≡ pos o)) ⊎ ((t < o) × (pos t ≤ℤ stop r))

cut-covers : (o b l t : ℕ) → b + t ≤ o + l → pos t ≤ℤ stop (cut (sub_ℕ o b) (pos l))
unfolding cut ◌+ℤ◌
cut-covers o b l t h = ground arith

pub prev_start-IsPrev :
    (o l t : ℕ)
    → 0 < l
    → 0 < o
    → 0 < t
    → IsPrev (cut (prev_start (pos o) (pos l) (pos t)) (pos l)) o l t
prev_start-IsPrev o l t h p q = elim (dec_le o t) [
  | yes k ↦ rw (prev_start_inside o l t k) (record {
    page = cut-IsPage_inside o l t h p k;
    before = cut-lt o l l p h;
    meets = inl (k, cut-stop o l);
  })
  | no k ↦
      let m : t < o = omega arith in
      let (a, b) = back_bounds o l t h (omega arith) in
      rw (prev_start_beyond o l t m) (record {
        page = cut-IsPage o (back o l t) l t q a b;
        before = cut-lt o (back o l t) l p (omega arith);
        meets = inr (omega arith, cut-covers o (back o l t) l t b);
      })
]

ahead-IsPage :
    (n l t : ℕ)
    → 0 < l
    → n < t
    → t ≤ n + l
    → IsPage (cut (pos n) (pos l)) l t × (pos t ≤ℤ stop (cut (pos n) (pos l)))
unfolding cut ◌+ℤ◌
ahead-IsPage n l t h a b = (ground arith, ground arith)

pub last_start-IsPage :
    (o l t : ℕ)
    → 0 < l
    → 0 < t
    → let r = cut (last_start (pos o) (pos l) (pos t)) (pos l) in IsPage r l t × (pos t ≤ℤ stop r)
last_start-IsPage o l t h q = elim (dec_le t o) [
  | yes k ↦
      let (a, b) = back_bounds o l t h k in
      rw (last_start_beyond o l t k)
        (cut-IsPage o (back o l t) l t q a b, cut-covers o (back o l t) l t b)
  | no k ↦
      let m : o < t = omega arith in
      let (a, b) = ahead_bounds o l t h m in
      rw (last_start_inside o l t m) (ahead-IsPage (ahead o l t) l t h a b)
]
