-- ===== src/Overlay/Hidden.antt =====
-- What stays hidden when `clear_whiteouts_for` of src/overlay.rs makes a path visible.
use dbvm.VmPath.{slash}
use dbvm.Common.{
  Bool, true, false, not, ◌&&◌, ◌||◌, List, [], ◌∷◌, ◌++◌, Text, same, same_refl, same-eq,
  starts_with, any, keep, if◌then◌else◌, ◌≡◌, refl, arith, Bool-cases, inl, inr,
}
use dbvm.Overlay.{
  Overlay, ancestors, whited_out_exact, add_whiteout, add_whiteouts, locked_below, lock_each,
  base_paths_below, clear_whiteouts_for,
}

any-left : (f : Text → Bool) (xs ys : List Text) → any f xs ≡ true → any f (xs ++ ys) ≡ true
any-left f [] ys h = absurd (ground (arith, h))
any-left f (x ∷ xs) ys h = ground (arith, h, any-left f xs ys)

any-last :
    (b : Text) (xs : List Text) (p : Text) → same b p ≡ true → any (same b) (xs ++ p ∷ []) ≡ true
any-last b [] p e = ground (arith, e)
any-last b (x ∷ xs) p e = ground (arith, e, any-last b xs p)

any-add_one :
    (b : Text) (ws : List Text) (p : Text)
    → any (same b) ws ≡ true
    → any (same b) (add_whiteout ws p) ≡ true
unfolding add_whiteout
any-add_one b ws p h = elim (Bool-cases (any (same p) ws)) [
  | inl e ↦ rw e h
  | inr e ↦ rw e (any-left (same b) ws (p ∷ []) h)
]

any-add_it :
    (b : Text) (ws : List Text) (p : Text)
    → same b p ≡ true
    → any (same b) (add_whiteout ws p) ≡ true
unfolding add_whiteout
any-add_it b ws p s = elim (Bool-cases (any (same p) ws)) [
  | inl e ↦ rw e (rw (same-eq b p s) e)
  | inr e ↦ rw e (any-last b ws p s)
]

-- A whiteout stays when others are added, and one that is added is there.
any-add :
    (b : Text) (ws ps : List Text)
    → any (same b) ws ≡ true
    → any (same b) (add_whiteouts ws ps) ≡ true
unfolding add_whiteouts
any-add b ws [] h = h
any-add b ws (p ∷ ps) h = any-add b (add_whiteout ws p) ps (any-add_one b ws p h)

any-added :
    (b : Text) (ws ps : List Text)
    → any (same b) ps ≡ true
    → any (same b) (add_whiteouts ws ps) ≡ true
unfolding add_whiteouts
any-added b ws [] h = absurd (ground (arith, h))
any-added b ws (p ∷ ps) h = elim (Bool-cases (same b p)) [
  | inl e ↦ any-add b (add_whiteout ws p) ps (any-add_it b ws p e)
  | inr e ↦ any-added b (add_whiteout ws p) ps (ground (arith, h, e))
]

-- What is kept of a list that has `b`, when the test holds of it.
any-kept :
    (b : Text) (g : Text → Bool) (ws : List Text)
    → any (same b) ws ≡ true
    → g b ≡ true
    → any (same b) (keep g ws) ≡ true
any-kept b g [] h e = absurd (ground (arith, h))
any-kept b g (w ∷ ws) h e = elim (Bool-cases (same b w)) [
  | inl s ↦ let gw : g w ≡ true = rw (← same-eq b w s) e in ground (arith, gw, s)
  | inr s ↦ ground (arith, any-kept b g ws (ground (arith, h, s)) e)
]

module _ (o : Overlay) (p b : Text) where
  locked-stays :
      (xs ws : List Text) → any (same b) ws ≡ true → any (same b) (lock_each o p xs ws) ≡ true
  locked-stays [] ws h = h
  locked-stays (a ∷ xs) ws h =
      locked-stays xs (add_whiteouts ws (locked_below o p a)) (any-add b ws (locked_below o p a) h)

  locked-added :
      (a : Text) (xs ws : List Text)
      → any (same a) xs ≡ true
      → any (same b) (locked_below o p a) ≡ true
      → any (same b) (lock_each o p xs ws) ≡ true
  locked-added a [] ws h q = absurd (ground (arith, h))
  locked-added a (c ∷ xs) ws h q = elim (Bool-cases (same a c)) [
    | inl s ↦
        let qc : any (same b) (locked_below o p c) ≡ true = rw (← same-eq a c s) q in
        locked-stays xs (add_whiteouts ws (locked_below o p c))
          (any-added b ws (locked_below o p c) qc)
    | inr s ↦ locked-added a xs (add_whiteouts ws (locked_below o p c)) (ground (arith, h, s)) q
  ]

same-flip : (a b : Text) → same a b ≡ same b a
same-flip a b = elim (Bool-cases (same a b)) [
  | inl e ↦ let eq = same-eq a b e in rw eq refl
  | inr e ↦ elim (Bool-cases (same b a)) [
    | inl f ↦ let eq = same-eq b a f in absurd (ground (arith, e, f, eq, same_refl a))
    | inr f ↦ rw (e, f) refl
  ]
]

any-flip : (b : Text) (xs : List Text) → any (λ a. same a b) xs ≡ any (same b) xs
any-flip b [] = refl
any-flip b (x ∷ xs) = rw (same-flip x b, any-flip b xs) refl

-- Why a path is hidden before `p` becomes visible, and not for the sake of `p`: it has a whiteout, or it
-- is in the Base below a whited-out ancestor of `p` and not below `p`, or below `p` with its whiteout.
pub data IsHidden (o : Overlay) (p b : Text) : Type 0 where
  by_itself : whited_out_exact o b ≡ true → IsHidden o p b
  below_ancestor :
      (a : Text)
      → any (same a) (ancestors p) ≡ true
      → whited_out_exact o a ≡ true
      → any (same b) (base_paths_below o a) ≡ true
      → starts_with (p ++ slash ∷ []) b ≡ false
      → IsHidden o p b
  below_path :
      whited_out_exact o p ≡ true → any (same b) (base_paths_below o p) ≡ true → IsHidden o p b

module _ (o : Overlay) (p b : Text) where
  abbrev all_locked : List Text
  all_locked = lock_each o p (keep (whited_out_exact o) (ancestors p)) o.vm_whiteouts

  abbrev with_below : Bool → List Text
  with_below removed =
      if removed then add_whiteouts all_locked (base_paths_below o p) else all_locked

  with_below-stays :
      (removed : Bool) → any (same b) all_locked ≡ true → any (same b) (with_below removed) ≡ true
  with_below-stays true h = any-add b all_locked (base_paths_below o p) h
  with_below-stays false h = h

  IsHidden-locked :
      same p b ≡ false
      → any (same b) (ancestors p) ≡ false
      → IsHidden o p b
      → any (same b) (with_below (any (same p) all_locked)) ≡ true
  unfolding whited_out_exact locked_below
  IsHidden-locked s n (by_itself h) =
      with_below-stays (any (same p) all_locked)
        (locked-stays o p b (keep (whited_out_exact o) (ancestors p)) o.vm_whiteouts h)
  IsHidden-locked s n (below_ancestor a up h below apart) =
      let flip : same b p ≡ false = rw (same-flip b p) s in
      let locked : any (same b) (locked_below o p a) ≡ true =
        any-kept b
          (λ bp.
            not (same bp p || starts_with (p ++ slash ∷ []) bp)
            && not (any (same bp) (ancestors p)))
          (base_paths_below o a) below (ground (arith, flip, apart, n)) in
      with_below-stays (any (same p) all_locked) (
        locked-added o p b a (keep (whited_out_exact o) (ancestors p)) o.vm_whiteouts
          (any-kept a (whited_out_exact o) (ancestors p) up h) locked)
  IsHidden-locked s n (below_path h below) =
      let removed : any (same p) all_locked ≡ true =
        locked-stays o p p (keep (whited_out_exact o) (ancestors p)) o.vm_whiteouts h in
      rw removed (any-added b all_locked (base_paths_below o p) below)

-- Making a path visible uncovers nothing else: another path that is no ancestor of it, and is hidden by
-- its own whiteout, or with its directory beside the path, or with the removed path itself, has a
-- whiteout of its own afterwards.
pub clear_whiteouts_for-hides :
    (o : Overlay) (p b : Text)
    → same p b ≡ false
    → any (same b) (ancestors p) ≡ false
    → IsHidden o p b
    → whited_out_exact (clear_whiteouts_for o p) b ≡ true
unfolding clear_whiteouts_for whited_out_exact
clear_whiteouts_for-hides o p b s n h =
    any-kept b (λ w. not (same p w) && not (any (λ a. same a w) (ancestors p))) _
      (IsHidden-locked o p b s n h) (ground (arith, s, n, any-flip b (ancestors p)))
