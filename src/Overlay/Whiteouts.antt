-- ===== src/Overlay/Whiteouts.antt =====
-- What whiteouts hide, and what `clear_whiteouts_for` of src/overlay.rs uncovers.
use dbvm.Common.{
  ℕ, zero, suc, length, Option-cases, Bool, true, false, not, ◌&&◌, some, List, [], ◌∷◌, Text, same,
  any, keep, ◌≡◌, refl, arith, Bool-cases, inl, inr, ◌⊎◌,
}
use dbvm.Overlay.{
  Overlay, base_layer, root, before_slash, cut_loop, ancestors, upward, whited_out_exact,
  whited_out, layer_of, lookup_file, clear_whiteouts_for,
}

-- A file that a lookup finds in the Base is where the Base's row is: no whiteout hides it, and the
-- Delta has no row of it.
pub lookup_file-layer_of :
    (o : Overlay) (p : Text) → lookup_file o p ≡ some base_layer → layer_of o p ≡ base_layer
unfolding lookup_file layer_of
lookup_file-layer_of o p e = ground (arith, e)

any-keep :
    {A : Type 0} (f q : A → Bool) (ws : List A)
    → ((w : A) → f w ≡ true → q w ≡ false)
    → any f (keep q ws) ≡ false
any-keep f q [] h = refl
any-keep f q (w ∷ ws) h = elim (Bool-cases (f w)) [
  | inl e ↦ ground (arith, any-keep f q ws h, h w e)
  | inr e ↦ ground (arith, any-keep f q ws h, e)
]

uncovered :
    (g : Text → Bool) (ws xs : List Text)
    → ((w : Text) → any (λ a. same a w) xs ≡ true → g w ≡ false)
    → any (λ q. any (same q) (keep g ws)) xs ≡ false
uncovered g ws [] h = refl
uncovered g ws (x ∷ xs) h = ground (
  arith,
  any-keep (same x) g ws (λ w e. h w (ground (arith, e))),
  uncovered g ws xs (λ w e. h w (ground (arith, e))),
)

cleared :
    (o : Overlay) (p : Text)
    → any (whited_out_exact (clear_whiteouts_for o p)) (p ∷ ancestors p) ≡ false
unfolding clear_whiteouts_for whited_out_exact
cleared o p =
    uncovered (λ w. not (same p w) && not (any (λ a. same a w) (ancestors p))) _ (p ∷ ancestors p)
      (λ w e. ground (arith, e))

text_cases : (t : Text) → (t ≡ []) ⊎ ((c : ℕ) × (u : Text) × (t ≡ c ∷ u))
text_cases [] = inl refl
text_cases (c ∷ u) = inr (c, u, refl)

-- The way up goes through the ancestors, and then to the root.
up_to_root :
    (f : Text → Bool) (n : ℕ) (p : Text)
    → f root ≡ false
    → any f (cut_loop [] n p) ≡ false
    → any f (cut_loop (root ∷ []) n p) ≡ false
unfolding cut_loop
up_to_root f zero p r h = refl
up_to_root f (suc n) p r h = elim (Option-cases (before_slash p)) [
  | inl e ↦ rw (cut_loop, e) refl
  | inr (t, e) ↦ elim (text_cases t) [
    | inl z ↦ rw (cut_loop, e, z) (ground (arith, r))
    | inr (c, u, z) ↦
        let below : any f ((c ∷ u) ∷ cut_loop [] n (c ∷ u)) ≡ false = rw (cut_loop, e, z) at h in
        rw (cut_loop, e, z) (ground (arith, below, up_to_root f n (c ∷ u) r))
  ]
]

-- A path that is made visible for a write is hidden by no whiteout any more, on itself or anywhere above
-- it, when none is on the root.
pub clear_whiteouts_for-uncovers :
    (o : Overlay) (p : Text)
    → whited_out_exact (clear_whiteouts_for o p) root ≡ false
    → whited_out (clear_whiteouts_for o p) p ≡ false
unfolding whited_out upward ancestors
clear_whiteouts_for-uncovers o p r =
    let h = cleared o p in
    let f = whited_out_exact (clear_whiteouts_for o p) in
    let above = up_to_root f (length p) p r (ground (arith, h)) in ground (arith, h, above)
