-- ===== src/Policy/Enforce.antt =====
-- The compiled triggers of src/policy.rs against the stored rules.
use dbvm.Common.{
  ℕ, ◌<◌, Bool, true, false, ◌||◌, Option, none, some, List, [], ◌∷◌, ◌++◌, map, Text, any, ◌≡◌,
  refl, ap, ap₂, ◌∙◌, arith, Option-cases, inl, inr,
}
use dbvm.Common.Decimal.{parse_u64, parse-to_string, u64_mod}
use dbvm.VmPath.{normalize_vm_path}
use dbvm.Policy.Triggers.{
  Rule, RuleType, PolicyRow, Side, old_row, new_row, Cond, under, larger_than, over_quota, Triggers,
  Limits, no_limits, strictest, gather_row, gather, size_conds, compile, rebuild_triggers, Event,
  holds, refuses, encode, decode,
}

-- A stored rule, read directly: does the event's row on that side break it?
abbrev pub breaks_prefix : Event → Side → PolicyRow → Bool
breaks_prefix e side r = elim r.rule_type [
  | RuleType.readonly_prefix ↦ holds e (under side r.pattern)
  | _ ↦ false
]

abbrev pub breaks_number : (ℕ → Bool) → Option ℕ → Bool
breaks_number p none = false
breaks_number p (some n) = p n

abbrev pub breaks_size : Event → PolicyRow → Bool
breaks_size e r = elim r.rule_type [
  | RuleType.max_file_size ↦ breaks_number (λ n. holds e (larger_than n)) (parse_u64 r.pattern)
  | RuleType.disk_quota ↦ breaks_number (λ n. holds e (over_quota n)) (parse_u64 r.pattern)
  | _ ↦ false
]

any-append {ℓ} :
    {A : Type ℓ} (p : A → Bool) (xs ys : List A) → any p (xs ++ ys) ≡ (any p xs || any p ys)
any-append p [] ys = refl
any-append p (x ∷ xs) ys = rw (any-append p xs ys) (ground arith)

larger-strictest :
    (e : Event) (m : Option ℕ) (n : ℕ)
    → holds e (larger_than (strictest m n))
      ≡ (breaks_number (λ k. holds e (larger_than k)) m || holds e (larger_than n))
unfolding holds
larger-strictest e none n = refl
larger-strictest e (some m) n = ground arith

over-strictest :
    (e : Event) (m : Option ℕ) (n : ℕ)
    → holds e (over_quota (strictest m n))
      ≡ (breaks_number (λ k. holds e (over_quota k)) m || holds e (over_quota n))
unfolding holds
over-strictest e none n = refl
over-strictest e (some m) n = ground arith

any-map-snoc :
    (e : Event) (side : Side) (ps : List Text) (p : Text)
    → any (holds e) (map (under side) (ps ++ p ∷ []))
      ≡ (any (holds e) (map (under side) ps) || holds e (under side p))
any-map-snoc e side [] p = ground arith
any-map-snoc e side (q ∷ ps) p = ground (arith, any-map-snoc e side ps p)

or_assoc : (a b c : Bool) → ((a || b) || c) ≡ (a || (b || c))
or_assoc true b c = refl
or_assoc false b c = refl

module _ (e : Event) where
  prefixes-gather_row :
      (l : Limits) (r : PolicyRow) (l' : Limits) (side : Side)
      → gather_row l r ≡ some l'
      → any (holds e) (map (under side) l'.prefixes)
        ≡ (any (holds e) (map (under side) l.prefixes) || breaks_prefix e side r)
  unfolding gather_row
  prefixes-gather_row l r l' side h = ground (arith, any-map-snoc e side l.prefixes r.pattern)

  size_conds-holds :
      (l : Limits)
      → any (holds e) (size_conds l) ≡ (
          breaks_number (λ k. holds e (larger_than k)) l.max_size
          || breaks_number (λ k. holds e (over_quota k)) l.quota)
  size_conds-holds l = ground arith

  sizes-gather_row :
      (l : Limits) (r : PolicyRow) (l' : Limits)
      → gather_row l r ≡ some l'
      → any (holds e) (size_conds l') ≡ (any (holds e) (size_conds l) || breaks_size e r)
  unfolding gather_row
  sizes-gather_row l r l' h = elim (Option-cases (parse_u64 r.pattern)) [
    | inl p ↦ ground (arith, p)
    | inr (n, p) ↦ ground (
      arith,
      p,
      size_conds-holds l,
      size_conds-holds l',
      larger-strictest e l.max_size n,
      over-strictest e l.quota n,
    )
  ]

  prefixes-gather :
      (l : Limits) (rs : List PolicyRow) (l' : Limits) (side : Side)
      → gather l rs ≡ some l'
      → any (holds e) (map (under side) l'.prefixes)
        ≡ (any (holds e) (map (under side) l.prefixes) || any (breaks_prefix e side) rs)
  unfolding gather
  prefixes-gather l [] l' side h = ground arith
  prefixes-gather l (r ∷ rs) l' side h = elim (Option-cases (gather_row l r)) [
    | inl n ↦ ground (arith, n, h)
    | inr (m, s) ↦
        prefixes-gather m rs l' side (ground (arith, s, h))
        ∙ ap (λ x. x || any (breaks_prefix e side) rs) (prefixes-gather_row l r m side s)
        ∙ or_assoc (any (holds e) (map (under side) l.prefixes)) (breaks_prefix e side r)
            (any (breaks_prefix e side) rs)
  ]

  sizes-gather :
      (l : Limits) (rs : List PolicyRow) (l' : Limits)
      → gather l rs ≡ some l'
      → any (holds e) (size_conds l') ≡ (any (holds e) (size_conds l) || any (breaks_size e) rs)
  unfolding gather
  sizes-gather l [] l' h = ground arith
  sizes-gather l (r ∷ rs) l' h = elim (Option-cases (gather_row l r)) [
    | inl n ↦ ground (arith, n, h)
    | inr (m, s) ↦
        sizes-gather m rs l' (ground (arith, s, h))
        ∙ ap (λ x. x || any (breaks_size e) rs) (sizes-gather_row l r m s)
        ∙ or_assoc (any (holds e) (size_conds l)) (breaks_size e r) (any (breaks_size e) rs)
  ]

  conds-gather :
      (rs : List PolicyRow) (l : Limits)
      → gather no_limits rs ≡ some l
      → (any (holds e) (map (under old_row) l.prefixes) ≡ any (breaks_prefix e old_row) rs)
        × (any (holds e) (map (under new_row) l.prefixes) ≡ any (breaks_prefix e new_row) rs)
        × (any (holds e) (size_conds l) ≡ any (breaks_size e) rs)
  conds-gather rs l h = (
    prefixes-gather no_limits rs l old_row h,
    prefixes-gather no_limits rs l new_row h,
    sizes-gather no_limits rs l h,
  )

rebuild_triggers-some :
    (rows : List PolicyRow) (t : Triggers)
    → rebuild_triggers rows ≡ some t
    → (l : Limits) × (gather no_limits rows ≡ some l) × (t ≡ compile l)
unfolding rebuild_triggers
rebuild_triggers-some rows t h = elim (Option-cases (gather no_limits rows)) [
  | inl n ↦ absurd (ground (arith, n, h))
  | inr (l, s) ↦ (l, s, ground (arith, s, h))
]

-- Outside a bypass the six triggers refuse exactly the writes that break a stored rule. An insert is
-- tested on its new row, a delete on its old row, and an update on both, for the prefixes; sizes and
-- quotas are tested on the new row of vm_fs, so each of several limits holds, the strictest first.
pub refuses-rebuild_triggers :
    (rows : List PolicyRow) (t : Triggers) (e : Event)
    → rebuild_triggers rows ≡ some t
    → (refuses t.fs_ins 0 e ≡ (any (breaks_prefix e new_row) rows || any (breaks_size e) rows))
      × (refuses t.fs_del 0 e ≡ any (breaks_prefix e old_row) rows)
      × (refuses t.fs_upd 0 e ≡ (
          any (breaks_prefix e old_row) rows
          || (any (breaks_prefix e new_row) rows || any (breaks_size e) rows)))
      × (refuses t.ch_ins 0 e ≡ any (breaks_prefix e new_row) rows)
      × (refuses t.ch_del 0 e ≡ any (breaks_prefix e old_row) rows)
      × (refuses t.ch_upd 0 e
          ≡ (any (breaks_prefix e old_row) rows || any (breaks_prefix e new_row) rows))
unfolding refuses compile
refuses-rebuild_triggers rows t e h =
    let (l, s, c) = rebuild_triggers-some rows t h in
    let (o, n, z) = conds-gather e rows l s in
    let old_conds = map (under old_row) l.prefixes in
    let new_conds = map (under new_row) l.prefixes in
    rw c (
      any-append (holds e) new_conds (size_conds l) ∙ ap₂ (λ a b. a || b) n z,
      o,
      any-append (holds e) old_conds (new_conds ++ size_conds l)
          ∙ ap₂ (λ a b. a || b) o
              (any-append (holds e) new_conds (size_conds l) ∙ ap₂ (λ a b. a || b) n z),
      n,
      o,
      any-append (holds e) old_conds new_conds ∙ ap₂ (λ a b. a || b) o n,
    )

-- Inside a bypass no trigger refuses anything.
pub refuses_bypassed : (conds : List Cond) (n : ℕ) (e : Event) → 0 < n → refuses conds n e ≡ false
unfolding refuses
refuses_bypassed conds n e h = ground arith

abbrev pub Storable : Rule → Type 0
Storable (Rule.readonly_prefix p) = Unit
Storable (Rule.max_file_size n) = n < u64_mod
Storable (Rule.disk_quota n) = n < u64_mod

-- What `add` stores of a rule, `list` reads back as that rule, a prefix in its normal form.
abbrev pub normal : Rule → Rule
normal (Rule.readonly_prefix p) = Rule.readonly_prefix (normalize_vm_path p)
normal r = r

pub decode-encode :
    (r : Rule) (id : ℕ) (kind : RuleType) (pattern : Text)
    → Storable r
    → encode r ≡ some (kind, pattern)
    → decode (record { id = id; rule_type = kind; pattern = pattern })
      ≡ some (record { id = id; rule = normal r })
unfolding decode encode
decode-encode (Rule.readonly_prefix p) id kind pattern h e = ground arith
decode-encode (Rule.max_file_size n) id kind pattern h e = ground (arith, parse-to_string n h)
decode-encode (Rule.disk_quota n) id kind pattern h e = ground (arith, parse-to_string n h)
