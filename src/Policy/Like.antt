-- ===== src/Policy/Like.antt =====
-- The condition of a trigger protects what `covers` protects, and what differs from it in case.
use dbvm.Common.{
  ℕ, true, false, ◌||◌, [], ◌∷◌, ◌++◌, map, Text, same, starts_with, ◌==◌, ==_iff, append_assoc,
  if◌then◌else◌, ◌≡◌, refl, ap, arith, Bool-cases, inl, inr,
}
use dbvm.VmPath.{slash}
use dbvm.Policy.{
  covers, backslash, percent, underscore, like_escape, fold_case, match_one, like, under_prefix,
}

-- What the three replacements make of one character.
abbrev escape_char : ℕ → Text
escape_char c =
    if c == backslash || c == percent || c == underscore then backslash ∷ c ∷ [] else c ∷ []

like_escape-cons : (c : ℕ) (s : Text) → like_escape (c ∷ s) ≡ escape_char c ++ like_escape s
unfolding like_escape
like_escape-cons c s = ground arith

like-escaped_char :
    (c q : ℕ) (ps s : Text)
    → like true (escape_char c ++ q ∷ ps) s
      ≡ match_one (λ x. fold_case c == fold_case x) (like true (q ∷ ps)) s
unfolding like
like-escaped_char c q ps s = elim (Bool-cases (c == backslash || c == percent || c == underscore)) [
  | inl e ↦ rw e
  | inr e ↦
      let not_backslash : (c == backslash) ≡ false = ground (arith, e) in
      let not_percent : (c == percent) ≡ false = ground (arith, e) in
      let not_underscore : (c == underscore) ≡ false = ground (arith, e) in
      rw e (rw (not_backslash, not_percent, not_underscore))
]

tail-cons : (t : Text) → (q : ℕ) × (ps : Text) × (t ++ slash ∷ percent ∷ [] ≡ q ∷ ps)
tail-cons [] = (slash, percent ∷ [], refl)
tail-cons (q ∷ t) = (q, t ++ slash ∷ percent ∷ [], refl)

like-cons :
    (c : ℕ) (t s : Text)
    → like true (escape_char c ++ (t ++ slash ∷ percent ∷ [])) s
      ≡ match_one (λ x. fold_case c == fold_case x) (like true (t ++ slash ∷ percent ∷ [])) s
like-cons c t s = let (q, ps, e) = tail-cons t in rw e (like-escaped_char c q ps s)

-- The escaped prefix with `/%` behind it matches what starts with the prefix and a slash, case aside.
like-under :
    (p s : Text)
    → like true (like_escape p ++ slash ∷ percent ∷ []) s
      ≡ starts_with (map fold_case p ++ slash ∷ []) (map fold_case s)
unfolding like starts_with
like-under [] [] = unfold like_escape in refl
like-under [] (c ∷ s) = unfold like_escape in refl
like-under (x ∷ p) [] = rw (like_escape-cons x p, append_assoc, like-cons x (like_escape p) [])
like-under (x ∷ p) (c ∷ s) =
    rw (like_escape-cons x p, append_assoc, like-cons x (like_escape p) (c ∷ s), like-under p s)

starts_with-fold :
    (p s : Text) → starts_with p s ≡ true → starts_with (map fold_case p) (map fold_case s) ≡ true
unfolding starts_with
starts_with-fold [] s h = refl
starts_with-fold (x ∷ p) [] h = cc
starts_with-fold (x ∷ p) (c ∷ s) h =
    let e : x ≡ c = (==_iff x c).0 (ground (arith, h)) in
    rw (e, (==_iff (fold_case c) (fold_case c)).1 refl) (starts_with-fold p s (ground (arith, h)))

map-slash : (p : Text) → map fold_case (p ++ slash ∷ []) ≡ map fold_case p ++ slash ∷ []
unfolding fold_case
map-slash [] = refl
map-slash (x ∷ p) = ap (λ t. fold_case x ∷ t) (map-slash p)

-- What a trigger's condition on a path protects, in full: the whole tree for `/`, else the path itself
-- and every path that starts with the prefix and a slash once the ASCII letters of both are folded.
pub under_prefix-fold :
    (prefix path : Text)
    → under_prefix prefix path ≡ (
        same prefix (slash ∷ [])
        || (same path prefix
            || starts_with (map fold_case prefix ++ slash ∷ []) (map fold_case path)))
unfolding under_prefix
under_prefix-fold prefix path = rw (like-under prefix path) (ground arith)

-- Every path that `covers` reports is protected by the trigger.
pub under_prefix-covers :
    (prefix path : Text) → covers prefix path ≡ true → under_prefix prefix path ≡ true
unfolding covers
under_prefix-covers prefix path h =
    rw under_prefix-fold (elim (Bool-cases (starts_with (prefix ++ slash ∷ []) path)) [
      | inl e ↦
          let f : starts_with (map fold_case prefix ++ slash ∷ []) (map fold_case path) ≡ true =
            rw (← map-slash prefix) (starts_with-fold (prefix ++ slash ∷ []) path e) in
          ground (arith, f)
      | inr e ↦ ground (arith, e, h)
    ])
