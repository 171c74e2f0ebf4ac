-- ===== src/VmPath/Split.antt =====
-- Laws of `split` and `join` at the slash.
use dbvm.Common.{ℕ, false, List, [], ◌∷◌, ◌++◌, ◌≡◌, refl, Text, ◌==◌, All, Bool-cases, inl, inr}
use dbvm.VmPath.{slash, split, join, into_first}

abbrev pub NoSlash : Text → Type 0
NoSlash w = All (λ c. (c == slash) ≡ false) w

-- A prefix with no slash is the start of the first piece.
pub split-append_slash : (w s : Text) → NoSlash w → split slash (w ++ slash ∷ s) ≡ w ∷ split slash s
unfolding split
split-append_slash [] s h = refl
split-append_slash (c ∷ w) s (hc, h) = rw (hc, split-append_slash w s h, into_first)

pub split-NoSlash : (w : Text) → NoSlash w → split slash w ≡ w ∷ []
unfolding split
split-NoSlash [] h = refl
split-NoSlash (c ∷ w) (hc, h) = rw (hc, split-NoSlash w h, into_first)

pub split-join :
    (w : Text) (ws : List Text) → All NoSlash (w ∷ ws) → split slash (join (w ∷ ws)) ≡ w ∷ ws
unfolding join
split-join w [] (hw, _) = split-NoSlash w hw
split-join w (v ∷ ws) (hw, h) = rw (split-append_slash w (join (v ∷ ws)) hw, split-join v ws h)

into_first-All :
    (c : ℕ) (ws : List Text) → (c == slash) ≡ false → All NoSlash ws → All NoSlash (into_first c ws)
unfolding into_first
into_first-All c [] hc h = ((hc, tt), tt)
into_first-All c (w ∷ ws) hc (hw, h) = ((hc, hw), h)

pub split-All : (s : Text) → All NoSlash (split slash s)
unfolding split
split-All [] = (tt, tt)
split-All (c ∷ s) = elim (Bool-cases (c == slash)) [
  | inl e ↦ rw e (tt, split-All s)
  | inr e ↦ rw e (into_first-All c (split slash s) e (split-All s))
]

-- `split` gives at least one piece.
pub split-cons : (s : Text) → (w : Text) × (ws : List Text) × (split slash s ≡ w ∷ ws)
unfolding split
split-cons [] = ([], [], refl)
split-cons (c ∷ s) = elim (Bool-cases (c == slash)) [
  | inl e ↦ ([], split slash s, rw e)
  | inr e ↦ let (w, ws, h) = split-cons s in (c ∷ w, ws, rw (e, h, into_first))
]

-- A slash anywhere splits a text in two.
pub split-append : (s t : Text) → split slash (s ++ slash ∷ t) ≡ split slash s ++ split slash t
unfolding split
split-append [] t = refl
split-append (c ∷ s) t =
    let (w, ws, h) = split-cons s in
    elim (Bool-cases (c == slash)) [
      | inl e ↦ rw (e, split-append s t)
      | inr e ↦ rw (e, split-append s t, h, into_first)
    ]
