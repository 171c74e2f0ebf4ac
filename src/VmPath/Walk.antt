-- ===== src/VmPath/Walk.antt =====
-- Laws of the loop over the segments of a path.
use dbvm.Common.{
  ℕ, zero, suc, ◌+◌, false, ◌||◌, List, [], ◌∷◌, ◌++◌, ◌≡◌, refl, ap, arith, Text, same, All,
  All-append, All-pop, append_assoc, append-nil, Bool-cases, inl, inr, pop, take, replicate, length,
  sym, ◌∙◌, ◌<◌,
}
use dbvm.VmPath.{walk, step_segment, is_nil, dot, dotdot}
use dbvm.VmPath.Split.{NoSlash}

-- A segment that names an entry: not empty, not `.` or `..`, with no slash.
pub record IsName (w : Text) : Type 0 where
  pub not_nil : is_nil w ≡ false
  pub not_dot : same w dot ≡ false
  pub not_dotdot : same w dotdot ≡ false
  pub no_slash : NoSlash w

pub walk-append : (p segs more : List Text) → walk p (segs ++ more) ≡ walk (walk p segs) more
unfolding walk
walk-append p [] more = refl
walk-append p (s ∷ segs) more = walk-append (step_segment p s) segs more

pub step_segment-name : (p : List Text) {w : Text} → IsName w → step_segment p w ≡ p ++ w ∷ []
unfolding step_segment
step_segment-name p h = rw (h.not_nil, h.not_dot, h.not_dotdot)

-- Names are appended as they are.
pub walk-names : (p ws : List Text) → All IsName ws → walk p ws ≡ p ++ ws
unfolding walk
walk-names p [] h = rw append-nil
walk-names p (w ∷ ws) (hw, h) =
    rw (step_segment-name p hw, walk-names (p ++ w ∷ []) ws h, append_assoc)

step_segment-All :
    (p : List Text) (w : Text) → NoSlash w → All IsName p → All IsName (step_segment p w)
unfolding step_segment
step_segment-All p w hw hp = elim (Bool-cases (is_nil w || same w dot)) [
  | inl e ↦ rw e hp
  | inr e ↦ elim (Bool-cases (same w dotdot)) [
    | inl d ↦ rw (e, d) (All-pop IsName p hp)
    | inr d ↦
        rw (e, d)
          (All-append IsName p (w ∷ []) hp (
            record {
              not_nil = ground (arith, e);
              not_dot = ground (arith, e);
              not_dotdot = d;
              no_slash = hw;
            },
            tt,
          ))
  ]
]

-- What the walk builds consists of names.
pub walk-All : (p segs : List Text) → All NoSlash segs → All IsName p → All IsName (walk p segs)
unfolding walk
walk-All p [] h hp = hp
walk-All p (s ∷ segs) (hs, h) hp = walk-All (step_segment p s) segs h (step_segment-All p s hs hp)

length-pop : (x : Text) (xs : List Text) → length (pop (x ∷ xs)) ≡ length xs
length-pop x [] = refl
length-pop x (y ∷ ys) = ap suc (length-pop y ys)

take-pop : (k : ℕ) (p : List Text) → k < length p → take k (pop p) ≡ take k p
take-pop zero p h = refl
take-pop (suc k) [] h = elim h [ ]
take-pop (suc k) (x ∷ []) h = absurd (omega arith)
take-pop (suc k) (x ∷ y ∷ ys) h = ap (λ t. x ∷ t) (take-pop k (y ∷ ys) (omega arith))

take-length : (p : List Text) (k : ℕ) → length p ≡ k → take k p ≡ p
take-length [] zero h = refl
take-length [] (suc k) h = refl
take-length (x ∷ p) zero h = absurd (omega arith)
take-length (x ∷ p) (suc k) h = ap (λ t. x ∷ t) (take-length p k (omega arith))

-- Each `..` takes one component off.
pub walk-dotdots :
    (n k : ℕ) (p : List Text) → length p ≡ k + n → walk p (replicate n dotdot) ≡ take k p
unfolding walk step_segment same
walk-dotdots zero k p h = sym (take-length p k (omega arith))
walk-dotdots (suc n) k [] h = absurd (omega arith)
walk-dotdots (suc n) k (x ∷ xs) h =
    walk-dotdots n k (pop (x ∷ xs)) (omega (arith, length-pop x xs))
    ∙ take-pop k (x ∷ xs) (omega arith)
