-- ===== src/VmPath/Normalize.antt =====
-- What `normalize_vm_path` computes: the components of the trimmed path, written with single slashes.
use dbvm.Common.{
  ℕ, zero, suc, true, ◌&&◌, List, [], ◌∷◌, ◌++◌, ◌≡◌, refl, ap, sym, ◌∙◌, arith, Text, starts_with,
  ltb, ◌==◌, ==_iff, All, Bool-cases, inl, inr, pop, length, ◌≡⟨◌⟩◌, ◌∎,
}
use dbvm.VmPath.{
  slash, trim, split, into_first, walk, step_segment, has_double, replace_double, collapse,
  ends_with_slash, add_slash, drop_slash, or_slash, prepare, render, normalize_vm_path,
  split_components, trim_start, trim_end, all_whitespace, is_whitespace,
}
use dbvm.VmPath.Split.{split-cons, split-join, split-append}
use dbvm.VmPath.Walk.{IsName, walk-append, walk-names}
use dbvm.VmPath.Link.{names-NoSlash, split_components-All}

-- The same first segment, and segments behind it that the walk does not tell apart.
record Alike (s t : Text) : Type 0 where
  first : Text
  left : List Text
  right : List Text
  split_left : split slash s ≡ first ∷ left
  split_right : split slash t ≡ first ∷ right
  walks : (p : List Text) → walk p left ≡ walk p right

Alike-walk :
    {s t : Text} → Alike s t → (p : List Text) → walk p (split slash s) ≡ walk p (split slash t)
unfolding walk
Alike-walk a p = rw (a.split_left, a.split_right) (a.walks (step_segment p a.first))

Alike-refl : (s : Text) → Alike s s
Alike-refl s =
    let (w, ws, h) = split-cons s in
    record { first = w; left = ws; right = ws; split_left = h; split_right = h; walks = λ p. refl }

Alike-cons : (c : ℕ) {s t : Text} → Alike s t → Alike (c ∷ s) (c ∷ t)
unfolding split into_first walk
Alike-cons c {s} {t} a = elim (Bool-cases (c == slash)) [
  | inl e ↦ record {
    first = [];
    left = split slash s;
    right = split slash t;
    split_left = rw e;
    split_right = rw e;
    walks = Alike-walk a;
  }
  | inr e ↦ record {
    first = c ∷ a.first;
    left = a.left;
    right = a.right;
    split_left = rw (e, a.split_left);
    split_right = rw (e, a.split_right);
    walks = a.walks;
  }
]

-- Two slashes for one.
Alike-double : {s t : Text} → Alike s t → Alike (slash ∷ slash ∷ s) (slash ∷ t)
unfolding split walk step_segment
Alike-double {s} {t} a = record {
  first = [];
  left = [] ∷ split slash s;
  right = split slash t;
  split_left = refl;
  split_right = refl;
  walks = Alike-walk a;
}

Alike-replace_double : (s : Text) → Alike s (replace_double s)
unfolding replace_double
Alike-replace_double [] = Alike-refl []
Alike-replace_double (c ∷ []) = Alike-refl (c ∷ [])
Alike-replace_double (c ∷ d ∷ s) = elim (Bool-cases (c == slash && d == slash)) [
  | inl e ↦ rw e (
      rw ((==_iff c slash).0 (ground (arith, e)), (==_iff d slash).0 (ground (arith, e)))
        (Alike-double (Alike-replace_double s)))
  | inr e ↦ rw e (Alike-cons c (Alike-replace_double (d ∷ s)))
]

collapse-Alike :
    (n : ℕ) (s : Text)
    → (p : List Text) → walk p (split slash (collapse n s)) ≡ walk p (split slash s)
unfolding collapse
collapse-Alike zero s p = refl
collapse-Alike (suc n) s p = elim (Bool-cases (has_double s)) [
  | inl e ↦
      rw e (collapse-Alike n (replace_double s) p ∙ sym (Alike-walk (Alike-replace_double s) p))
  | inr e ↦ rw e
]

-- A slash at the end is an empty segment.
snoc-pop : (s : Text) → ends_with_slash s ≡ true → s ≡ pop s ++ slash ∷ []
unfolding ends_with_slash
snoc-pop [] h = cc
snoc-pop (c ∷ []) h = ap (λ t. t ∷ []) ((==_iff c slash).0 h)
snoc-pop (c ∷ d ∷ s) h = ap (λ t. c ∷ t) (snoc-pop (d ∷ s) h)

walk-add_slash : (s : Text) → walk [] (split slash (add_slash s)) ≡ walk [] (split slash s)
unfolding add_slash split walk step_segment
walk-add_slash s = elim (Bool-cases (starts_with (slash ∷ []) s)) [ inl e ↦ rw e | inr e ↦ rw e ]

walk-pop :
    (s : Text) → ends_with_slash s ≡ true → walk [] (split slash (pop s)) ≡ walk [] (split slash s)
unfolding walk step_segment split
walk-pop s h =
    let e : walk [] (split slash s) ≡ walk [] (split slash (pop s ++ slash ∷ [])) =
      ap (λ t. walk [] (split slash t)) (snoc-pop s h) in
    sym
      (e ∙ ap (walk []) (split-append (pop s) []) ∙ walk-append [] (split slash (pop s)) ([] ∷ []))

walk-drop_slash : (s : Text) → walk [] (split slash (drop_slash s)) ≡ walk [] (split slash s)
unfolding drop_slash
walk-drop_slash s = elim (Bool-cases (ltb 1 (length s) && ends_with_slash s)) [
  | inl e ↦ rw e (walk-pop s (ground (arith, e)))
  | inr e ↦ rw e
]

walk-or_slash : (s : Text) → walk [] (split slash (or_slash s)) ≡ walk [] (split slash s)
unfolding or_slash split walk step_segment
walk-or_slash [] = refl
walk-or_slash (c ∷ s) = refl

walk-prepare : (s : Text) → walk [] (split slash (prepare s)) ≡ split_components s
unfolding prepare split_components
walk-prepare s =
    let t = drop_slash (add_slash s) in
    walk-or_slash (collapse (length t) t)
    ∙ collapse-Alike (length t) t []
    ∙ walk-drop_slash (add_slash s)
    ∙ walk-add_slash s

-- The normal form of a path is the path of the components of the trimmed text, and these are names:
-- not empty, not `.` or `..`, with no slash inside.
pub normalize_vm_path-render :
    (p : Text)
    → (normalize_vm_path p ≡ render (split_components (trim p)))
      × All IsName (split_components (trim p))
unfolding normalize_vm_path
normalize_vm_path-render p = (ap render (walk-prepare (trim p)), split_components-All (trim p))

split_components-render : (ws : List Text) → All IsName ws → split_components (render ws) ≡ ws
unfolding split_components split walk step_segment
split_components-render [] h = refl
split_components-render (w ∷ ws) h =
    rw (split-join w ws (names-NoSlash (w ∷ ws) h)) (walk-names [] (w ∷ ws) h)

-- Normalising twice is normalising once, for a path whose normal form has no white space at its ends.
pub normalize-normalize :
    (p : Text)
    → trim (normalize_vm_path p) ≡ normalize_vm_path p
    → normalize_vm_path (normalize_vm_path p) ≡ normalize_vm_path p
normalize-normalize p h =
    let (e, names) = normalize_vm_path-render p in
    normalize_vm_path (normalize_vm_path p)
    ≡⟨ (normalize_vm_path-render (normalize_vm_path p)).0 ⟩
      render (split_components (trim (normalize_vm_path p)))
    ≡⟨ ap (λ t. render (split_components t)) (h ∙ e) ⟩
      render (split_components (render (split_components (trim p))))
    ≡⟨ ap render (split_components-render (split_components (trim p)) names) ⟩
      render (split_components (trim p))
    ≡⟨ sym e ⟩ normalize_vm_path p ∎

all_whitespace-snoc :
    (s : Text) (c : ℕ) → is_whitespace c ≡ true → all_whitespace (s ++ c ∷ []) ≡ all_whitespace s
unfolding all_whitespace
all_whitespace-snoc [] c h = rw h
all_whitespace-snoc (x ∷ s) c h = rw (all_whitespace-snoc s c h)

trim_end-snoc : (s : Text) (c : ℕ) → is_whitespace c ≡ true → trim_end (s ++ c ∷ []) ≡ trim_end s
unfolding trim_end all_whitespace
trim_end-snoc [] c h = rw h
trim_end-snoc (x ∷ s) c h = rw (all_whitespace-snoc s c h, trim_end-snoc s c h)

trim-snoc : (s : Text) (c : ℕ) → is_whitespace c ≡ true → trim (s ++ c ∷ []) ≡ trim s
unfolding trim trim_start trim_end
trim-snoc [] c h = rw h
trim-snoc (x ∷ s) c h = elim (Bool-cases (is_whitespace x)) [
  | inl e ↦ rw e (trim-snoc s c h)
  | inr e ↦ rw e (trim_end-snoc (x ∷ s) c h)
]

-- White space at the end of a path is dropped, so a name that ends in white space stands for another.
pub normalize-append_whitespace :
    (p : Text) (c : ℕ)
    → is_whitespace c ≡ true
    → normalize_vm_path (p ++ c ∷ []) ≡ normalize_vm_path p
unfolding normalize_vm_path
normalize-append_whitespace p c h = rw (trim-snoc p c h)
