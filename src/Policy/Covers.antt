-- ===== src/Policy/Covers.antt =====
-- `covers` on paths in normal form is the prefix order on their components.
use dbvm.Common.{
  true, false, List, [], ◌∷◌, ◌++◌, Text, same, same_refl, same-eq, starts_with, ==_iff, ◌≡◌, refl,
  drop, ap, ap₂, subst, ◌⊎◌, sym, ◌∙◌, ◌↔◌, arith, Bool-cases, inl, inr, All, append-nil,
  append_assoc,
}
use dbvm.VmPath.{slash, is_nil, split, join, render}
use dbvm.VmPath.Split.{split-join, split-append}
use dbvm.VmPath.Walk.{IsName}
use dbvm.VmPath.Link.{names-NoSlash}
use dbvm.Policy.{covers}

-- A text that starts with another is that text with a rest behind it.
starts_with-append : (p s : Text) → starts_with p s ≡ true → (t : Text) × (s ≡ p ++ t)
unfolding starts_with
starts_with-append [] s h = (s, refl)
starts_with-append (x ∷ p) [] h = cc
starts_with-append (x ∷ p) (c ∷ s) h =
    let (t, e) = starts_with-append p s (ground (arith, h)) in
    (t, ap₂ (λ a b. a ∷ b) (sym ((==_iff x c).0 (ground (arith, h)))) e)

append-starts_with : (p t : Text) → starts_with p (p ++ t) ≡ true
unfolding starts_with
append-starts_with [] t = refl
append-starts_with (x ∷ p) t = rw ((==_iff x x).1 refl) (append-starts_with p t)

render-split :
    (ws : List Text) (w : Text) → All IsName (w ∷ ws) → split slash (render (w ∷ ws)) ≡ [] ∷ w ∷ ws
unfolding split
render-split ws w h = ap (λ t. [] ∷ t) (split-join w ws (names-NoSlash (w ∷ ws) h))

join-append :
    (w v : Text) (ws vs : List Text)
    → join (w ∷ ws ++ v ∷ vs) ≡ join (w ∷ ws) ++ slash ∷ join (v ∷ vs)
unfolding join
join-append w v [] vs = refl
join-append w v (u ∷ ws) vs = rw (join-append u v ws vs, append_assoc)

join-not_nil : (w : Text) (ws : List Text) → is_nil w ≡ false → is_nil (join (w ∷ ws)) ≡ false
unfolding join
join-not_nil [] ws h = cc
join-not_nil (c ∷ w) [] h = refl
join-not_nil (c ∷ w) (v ∷ ws) h = refl

same-slash : (x : Text) → same (slash ∷ x) (slash ∷ []) ≡ is_nil x
unfolding same
same-slash [] = refl
same-slash (c ∷ x) = refl

covers_self : (p : Text) → covers p p ≡ true
unfolding covers
covers_self p = rw (same_refl p) (ground arith)

covers-append : (p t : Text) → covers p ((p ++ slash ∷ []) ++ t) ≡ true
unfolding covers
covers-append p t = rw (append-starts_with (p ++ slash ∷ []) t) (ground arith)

covers-cases :
    (p s : Text)
    → same p (slash ∷ []) ≡ false
    → covers p s ≡ true
    → (s ≡ p) ⊎ ((t : Text) × (s ≡ (p ++ slash ∷ []) ++ t))
unfolding covers
covers-cases p s root h = elim (Bool-cases (same s p)) [
  | inl e ↦ inl (same-eq s p e)
  | inr e ↦ inr (starts_with-append (p ++ slash ∷ []) s (ground (arith, h, root, e)))
]

covers_of_append : (a c : List Text) → covers (render a) (render (a ++ c)) ≡ true
covers_of_append [] c = unfold covers same in refl
covers_of_append (w ∷ ws) [] = rw append-nil (covers_self (render (w ∷ ws)))
covers_of_append (w ∷ ws) (v ∷ vs) =
    let p : Text = slash ∷ join (w ∷ ws) in
    let e : slash ∷ join (w ∷ (ws ++ v ∷ vs)) ≡ (p ++ slash ∷ []) ++ join (v ∷ vs) =
      ap (λ t. slash ∷ t)
        (join-append w v ws vs ∙ sym (append_assoc (join (w ∷ ws)) (slash ∷ []) (join (v ∷ vs)))) in
    subst (λ s. covers p s ≡ true) (sym e) (covers-append p (join (v ∷ vs)))

-- The pieces of the longer path are those of the shorter one and more.
split-extended :
    (w : Text) (ws : List Text) (t : Text)
    → All IsName (w ∷ ws)
    → split slash ((slash ∷ join (w ∷ ws) ++ slash ∷ []) ++ t) ≡ [] ∷ w ∷ (ws ++ split slash t)
split-extended w ws t h =
    ap (split slash) (append_assoc (slash ∷ join (w ∷ ws)) (slash ∷ []) t)
    ∙ split-append (slash ∷ join (w ∷ ws)) t
    ∙ ap (λ x. x ++ split slash t) (render-split ws w h)

covers-root : (x : Text) → is_nil x ≡ false → covers (slash ∷ x) (slash ∷ []) ≡ false
unfolding covers
covers-root [] h = cc
covers-root (c ∷ x) h = refl

append_of_covers :
    (a b : List Text)
    → All IsName a
    → All IsName b
    → covers (render a) (render b) ≡ true
    → (c : List Text) × (b ≡ a ++ c)
append_of_covers [] b ha hb h = (b, refl)
append_of_covers (w ∷ ws) [] ha hb h =
    cc (covers-root (join (w ∷ ws)) (join-not_nil w ws ha.0.not_nil))
append_of_covers (w ∷ ws) (v ∷ vs) ha hb h =
    let p : Text = slash ∷ join (w ∷ ws) in
    elim (covers-cases p (render (v ∷ vs))
      (same-slash (join (w ∷ ws)) ∙ join-not_nil w ws ha.0.not_nil) h) [
        | inl e ↦ (
          [],
          ap (drop 1) (sym (render-split vs v hb) ∙ ap (split slash) e ∙ render-split ws w ha)
              ∙ sym (append-nil (w ∷ ws)),
        )
        | inr (t, e) ↦ (
          split slash t,
          ap (drop 1) (sym (render-split vs v hb) ∙ ap (split slash) e ∙ split-extended w ws t ha),
        )
      ]

-- On normal paths `covers` is decided by the components alone: the path is the prefix, or a longer
-- list of components that begins with those of the prefix. `/` covers every path.
pub covers_iff_components :
    (a b : List Text)
    → All IsName a
    → All IsName b
    → (covers (render a) (render b) ≡ true) ↔ ((c : List Text) × (b ≡ a ++ c))
covers_iff_components a b ha hb =
    (append_of_covers a b ha hb, λ r. rw (r.1) (covers_of_append a r.0))
