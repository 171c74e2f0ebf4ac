-- ===== src/Fuse/Answered.antt =====
-- What holds of every answer of a request in src/fuse.rs: the ways the handlers are composed.
use dbvm.Common.{ℕ, Bool, true, false, Text, if◌then◌else◌, Option-cases, inl, inr}
use dbvm.Db.{Db, Result, ok, err}
use dbvm.Db.Refs.{IsCounted}
use dbvm.Fuse.{Errno, Reply, done, failed, Node, VmFuse, find_node, child, write_errno}
use dbvm.Fuse.Requests.{Answer, with_db, node_or, child_or, with_paths}

module _ {B : Type 0} (P : Answer B → Type 0) where
  pub node_or-holds :
      (e : Errno) (v : VmFuse) (i : ℕ) (next : Node → Answer B)
      → P (failed e, v)
      → ((n : Node) → P (next n))
      → P (node_or e v i next)
  unfolding node_or
  node_or-holds e v i next h k = elim (Option-cases (find_node i v.nodes)) [
    | inl t ↦ rw (node_or, t) h
    | inr (n, t) ↦ rw (node_or, t) (k n)
  ]

  pub child_or-holds :
      (e : Errno) (v : VmFuse) (i : ℕ) (name : Text) (next : ℕ → Node → Answer B)
      → P (failed e, v)
      → ((j : ℕ) (n : Node) → P (next j n))
      → P (child_or e v i name next)
  unfolding child_or
  child_or-holds e v i name next h k = elim (Option-cases (child v i name)) [
    | inl t ↦ rw (child_or, t) h
    | inr (j, t) ↦ rw (child_or, t) (node_or-holds e v j (next j) h (k j))
  ]

  pub with_paths-holds :
      (v : VmFuse) (r : Reply (Text × Text)) (other : Errno → Answer B)
      (next : Text × Text → Answer B)
      → ((e : Errno) → P (other e))
      → ((ps : Text × Text) → P (next ps))
      → P (with_paths v r other next)
  unfolding with_paths
  with_paths-holds v (failed e) other next h k = h e
  with_paths-holds v (done ps) other next h k = k ps

  pub with_db-holds :
      {A : Type 0} (v : VmFuse) (r : Result A × Db) (next : VmFuse → Answer B)
      → ((e : Errno) → P (failed e, record v { conn = r.1 }))
      → P (next (record v { conn = r.1 }))
      → P (with_db v r next)
  unfolding with_db
  with_db-holds v (err e, s) next h k = h (write_errno e)
  with_db-holds v (ok a, s) next h k = k

  pub either-holds : (b : Bool) (a a' : Answer B) → P a → P a' → P (if b then a else a')
  either-holds true a a' h k = h
  either-holds false a a' h k = k

-- The references to content are counted in the database of an answer.
pub record AnswerIsCounted {B : Type 0} (a : Answer B) : Type 0 where
  pub count : IsCounted a.1.conn

-- A statement that keeps the count, and an answer that leaves its database.
pub with_db-IsCounted :
    {A B : Type 0} (v : VmFuse) (r : Result A × Db) (next : VmFuse → Answer B)
    → IsCounted r.1
    → ((w : VmFuse) → IsCounted w.conn → AnswerIsCounted (next w))
    → AnswerIsCounted (with_db v r next)
with_db-IsCounted v r next h k =
    with_db-holds AnswerIsCounted v r next (λ e. record { count = h })
      (k (record v { conn = r.1 }) h)

-- An answer that leaves a counted database.
pub ended : {B : Type 0} (r : Reply B) (v : VmFuse) → IsCounted v.conn → AnswerIsCounted (r, v)
ended r v h = record { count = h }
