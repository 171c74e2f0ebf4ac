-- ===== src/Read/Resolve.antt =====
-- What `resolve_path` of src/vm/read.rs returns.
use dbvm.Common.{
  ℕ, zero, suc, false, some, List, [], ◌∷◌, Text, any, same, ◌≡◌, arith, Bool-cases, Option-cases,
  inl, inr,
}
use dbvm.VmPath.{normalize_vm_path}
use dbvm.Db.{FsRow, Db, ok}
use dbvm.Db.Nodes.{find_row}
use dbvm.Read.{is_symlink, resolve_loop, resolve_path, link_next, target_of}

-- A row stands at the path, and it is no symlink.
pub record IsNode (rows : List FsRow) (p : Text) : Type 0 where
  pub row : FsRow
  pub found : find_row p rows ≡ some row
  pub real : is_symlink row.kind ≡ false

resolve_loop-IsNode :
    (vm_path : Text) (rows : List FsRow) (n : ℕ) (visited : List Text) (cur q : Text)
    → resolve_loop vm_path rows n visited cur ≡ ok q
    → IsNode rows q
unfolding resolve_loop
resolve_loop-IsNode vm_path rows zero visited cur q e = absurd (ground (arith, e))
resolve_loop-IsNode vm_path rows (suc n) visited cur q e =
    elim (Bool-cases (any (same cur) visited)) [
      | inl t ↦ absurd (ground (arith, e, t))
      | inr t ↦ elim (Option-cases (find_row cur rows)) [
        | inl g ↦ absurd (ground (arith, e, t, g))
        | inr (r, g) ↦ elim (Bool-cases (is_symlink r.kind)) [
          | inl k ↦
              resolve_loop-IsNode vm_path rows n (cur ∷ visited) (link_next cur (target_of r)) q
                (ground (arith, e, t, g, k))
          | inr k ↦
              let same_path : q ≡ cur = ground (arith, e, t, g, k) in
              rw same_path (record { row = r; found = g; real = k })
        ]
      ]
    ]

-- A path that resolves leads to a row of the tree that is no symlink, however many links were followed.
pub resolve_path-IsNode :
    (s : Db) (vm_path q : Text) → resolve_path s vm_path ≡ ok q → IsNode s.vm_fs q
unfolding resolve_path
resolve_path-IsNode s vm_path q =
    resolve_loop-IsNode vm_path s.vm_fs 40 [] (normalize_vm_path vm_path) q
