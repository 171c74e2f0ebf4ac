-- ===== src/VmPath/Link.antt =====
-- The text that a mount shows for a link leads to the stored target, and stays inside the mount.
use dbvm.Common.{
  ℕ, zero, suc, ◌-◌, ◌≤◌, true, false, List, [], ◌∷◌, ◌++◌, ◌≡◌, refl, ap, arith, Text, same,
  same-eq, starts_with, All, All-append, take-append-drop, Bool-cases, inl, inr, take, drop,
  replicate, length, ◌≡⟨◌⟩◌, ◌∎,
}
use dbvm.VmPath.{
  slash, split, join, walk, step_segment, is_nil, dotdot, common, relative, or_dot,
  split_components, parent_components, mount_link_text,
}
use dbvm.VmPath.Split.{NoSlash, split-All, split-join}
use dbvm.VmPath.Walk.{IsName, walk-append, walk-names, walk-All, walk-dotdots}

common-le : (from to : List Text) → common from to ≤ length from
unfolding common
common-le [] to = omega arith
common-le (a ∷ from) [] = omega arith
common-le (a ∷ from) (b ∷ to) = ground (arith, common-le from to)

take-common : (from to : List Text) → take (common from to) from ≡ take (common from to) to
unfolding common
take-common [] [] = refl
take-common [] (b ∷ to) = refl
take-common (a ∷ from) [] = refl
take-common (a ∷ from) (b ∷ to) = elim (Bool-cases (same a b)) [
  | inl e ↦ rw (e, same-eq a b e) (ap (λ t. b ∷ t) (take-common from to))
  | inr e ↦ rw e
]

drop-All : (n : ℕ) (ws : List Text) → All IsName ws → All IsName (drop n ws)
drop-All zero ws h = h
drop-All (suc n) [] h = tt
drop-All (suc n) (w ∷ ws) (_, h) = drop-All n ws h

dotdots-NoSlash : (n : ℕ) → All NoSlash (replicate n dotdot)
dotdots-NoSlash zero = tt
dotdots-NoSlash (suc n) = ((refl, (refl, tt)), dotdots-NoSlash n)

pub names-NoSlash : (ws : List Text) → All IsName ws → All NoSlash ws
names-NoSlash [] h = tt
names-NoSlash (w ∷ ws) (hw, h) = (hw.no_slash, names-NoSlash ws h)

-- Joining and splitting again changes nothing that the walk sees.
walk-or_dot : (p ws : List Text) → All NoSlash ws → walk p (split slash (or_dot ws)) ≡ walk p ws
unfolding or_dot split walk step_segment same
walk-or_dot p [] h = refl
walk-or_dot p (w ∷ ws) h = rw (split-join w ws h)

-- From the directory `from`, the relative text leads to `to`.
walk-relative :
    (from to : List Text) → All IsName to → walk from (split slash (relative from to)) ≡ to
unfolding relative
walk-relative from to h =
    let k = common from to in
    let n = length from - k in
    let rest : All IsName (drop k to) = drop-All k to h in
    walk from (split slash (relative from to))
    ≡⟨ walk-or_dot from _ (
        All-append NoSlash (replicate n dotdot) (drop k to) (dotdots-NoSlash n)
          (names-NoSlash (drop k to) rest)) ⟩
      walk from (replicate n dotdot ++ drop k to)
    ≡⟨ walk-append from (replicate n dotdot) (drop k to) ⟩
      walk (walk from (replicate n dotdot)) (drop k to)
    ≡⟨ ap (λ p. walk p (drop k to)) (walk-dotdots n k from (omega (arith, common-le from to))) ⟩
      walk (take k from) (drop k to)
    ≡⟨ walk-names (take k from) (drop k to) rest ⟩ take k from ++ drop k to
    ≡⟨ ap (λ t. t ++ drop k to) (take-common from to) ⟩ take k to ++ drop k to
    ≡⟨ take-append-drop k to ⟩ to ∎

-- The components of any path are names.
pub split_components-All : (p : Text) → All IsName (split_components p)
unfolding split_components
split_components-All p = walk-All [] (split slash p) (split-All p) tt

-- Read from the directory of the link, the text that the mount shows for an absolute target leads to
-- the components of that target.
pub walk-mount_link_text :
    (link target : Text)
    → starts_with (slash ∷ []) target ≡ true
    → walk (parent_components link) (split slash (mount_link_text link target))
      ≡ split_components target
unfolding mount_link_text
walk-mount_link_text link target h =
    rw h (
      walk-relative (parent_components link) (split_components target)
        (split_components-All target))

join-relative :
    (w : Text) (ws : List Text)
    → is_nil w ≡ false
    → NoSlash w
    → starts_with (slash ∷ []) (join (w ∷ ws)) ≡ false
unfolding join starts_with
join-relative [] ws e h = cc
join-relative (c ∷ w) [] e (hc, _) = ground (arith, hc)
join-relative (c ∷ w) (v ∷ ws) e (hc, _) = ground (arith, hc)

or_dot-relative :
    (n : ℕ) (ws : List Text)
    → All IsName ws
    → starts_with (slash ∷ []) (or_dot (replicate n dotdot ++ ws)) ≡ false
unfolding or_dot starts_with
or_dot-relative zero [] h = refl
or_dot-relative zero (w ∷ ws) (hw, h) = join-relative w ws hw.not_nil hw.no_slash
or_dot-relative (suc n) ws h =
    join-relative dotdot (replicate n dotdot ++ ws) refl (refl, (refl, tt))

relative-relative :
    (from to : List Text) → All IsName to → starts_with (slash ∷ []) (relative from to) ≡ false
unfolding relative
relative-relative from to h =
    or_dot-relative (length from - common from to) _ (drop-All (common from to) to h)

-- The text that a mount shows is never an absolute path, whatever is stored: the kernel cannot be led
-- to the root of the host by it.
pub mount_link_text-relative :
    (link target : Text) → starts_with (slash ∷ []) (mount_link_text link target) ≡ false
unfolding mount_link_text
mount_link_text-relative link target = elim (Bool-cases (starts_with (slash ∷ []) target)) [
  | inl e ↦ rw e (relative-relative (parent_components link) _ (split_components-All target))
  | inr e ↦ rw (e, e)
]
