-- ===== src/RuntimeLock.antt =====
-- src/runtime/runtime-lock.ts and src/runtime/cleanup.ts. The file system and the lock library are
-- outside: each call of them is noted, and its answer is an argument. What a call throws need not be
-- an `Error`, and may be false as a condition.
pub mod Acquire
pub mod Release
mod Runs
use kepos.Common.{
  ℕ, Bool, true, false, Option, none, some, List, [], ◌∷◌, ◌++◌, if◌then◌else◌, ◌&&◌,
}
use kepos.Common.Outcome.{Outcome, Run, done, thrown, ◌>>=◌, ◌>>◌, return, throw}
use kepos.Common.Text.{Text, codes}

pub data Error : Type 0 where
  plain : Text → Error
  aggregate : Error → Error → Text → Error

-- A thrown value: an error, or another value with its truth as a condition and its `String`.
pub data Thrown : Type 0 where
  error : Error → Thrown
  value : Bool → Text → Thrown

abbrev pub is_true : Thrown → Bool
is_true (error e) = true
is_true (value b t) = b

-- A variable that is `undefined`, or holds what was thrown.
abbrev pub holds : Option Thrown → Bool
holds none = false
holds (some t) = is_true t

unfoldable pub as_error : Thrown → Error
as_error (error e) = e
as_error (value b t) = plain t

unfoldable pub combine_errors : Thrown → Error → Error
unfolding as_error
combine_errors primary cleanup =
    aggregate (as_error primary) cleanup (codes "Runtime lock cleanup failed")

pub data Call : Type 0 where
  make_directory open_file : Text → Call
  try_lock chmod unlock close : ℕ → Call

abbrev pub Effect : Type 0 → Type 0
Effect A = Run Thrown (List Call) A

pub data Answer (A : Type 0) : Type 0 where
  ok : A → Answer A
  bad : Thrown → Answer A

abbrev pub perform : {A : Type 0} → Call → Answer A → Effect A
perform call (ok a) calls = done a (calls ++ call ∷ [])
perform call (bad t) calls = thrown t (calls ++ call ∷ [])

-- `let e; try { call } catch (error) { e = error }`
abbrev pub caught : Call → Answer (Unit {0}) → Effect (Option Thrown)
caught call (ok a) calls = done none (calls ++ call ∷ [])
caught call (bad t) calls = done (some t) (calls ++ call ∷ [])

-- What the two calls of `closeHandle` will answer.
pub record Closing : Type 0 where
  pub unlocked : Answer (Unit {0})
  pub closed : Answer (Unit {0})

pub close_result : Option Thrown → Option Thrown → Text → Option Error
unfolding as_error
close_result (some u) (some c) description =
    if is_true u && is_true c
    then some
        (aggregate (as_error u) (as_error c) (codes "Failed to unlock and close " ++ description))
    else if is_true u
    then some (as_error u)
    else if is_true c
    then some (as_error c)
    else none
close_result (some u) none description = if is_true u then some (as_error u) else none
close_result none (some c) description = if is_true c then some (as_error c) else none
close_result none none description = none

unfoldable pub close_handle : ℕ → Bool → Text → Closing → Effect (Option Error)
unfolding close_result
close_handle handle locked description a =
    (if locked then caught (unlock handle) a.unlocked else return none) >>= λ unlock_error.
    caught (close handle) a.closed >>= λ close_error.
    return (close_result unlock_error close_error description)

pub record RuntimeLock : Type 0 where
  pub handle : ℕ
  pub description : Text
  -- What `releasePromise` is bound to, once there is one.
  pub released : Option (Option Error)

pub record Options : Type 0 where
  pub lock_path : Text
  pub directory : Text  -- `path.dirname(lockPath)`
  pub conflict_message : Text
  pub description : Option Text

abbrev pub described : Options → Text
described o = elim o.description [ none ↦ codes "runtime lock" | some d ↦ d ]

pub record Answers : Type 0 where
  pub directory : Answer (Unit {0})
  pub opened : Answer ℕ
  pub locked : Answer Bool
  pub mode : Answer (Unit {0})
  pub closing : Closing

-- `if (closeError) throw combineErrors(error, closeError); throw error`
unfoldable pub combined : Thrown → Option Error → Thrown
unfolding combine_errors
combined t none = t
combined t (some e) = error (combine_errors t e)

-- The `catch` block, with the handle still bound. A conflict does the same in the `try` block, and
-- unbinds the handle, so that the `catch` block leaves it alone.
pub give_up : {A : Type 0} → ℕ → Bool → Text → Closing → Thrown → Effect A
unfolding close_handle combined
give_up handle locked description closing t =
    close_handle handle locked description closing >>= λ failure. throw (combined t failure)

-- The `try` block from the lock on.
pub own : ℕ → Options → Answers → Effect RuntimeLock
unfolding give_up
own handle o a calls = elim a.locked [
  | bad t ↦ give_up handle false (described o) a.closing t (calls ++ try_lock handle ∷ [])
  | ok false ↦
      give_up handle false (described o) a.closing (error (plain o.conflict_message))
        (calls ++ try_lock handle ∷ [])
  | ok true ↦ elim a.mode [
    | bad t ↦
        give_up handle true (described o) a.closing t (calls ++ try_lock handle ∷ chmod handle ∷ [])
    | ok u ↦
        done (record { handle = handle; description = described o; released = none })
          (calls ++ try_lock handle ∷ chmod handle ∷ [])
  ]
]

unfoldable pub acquire_runtime_lock : Options → Answers → Effect RuntimeLock
unfolding own
acquire_runtime_lock o a =
    perform (make_directory o.directory) a.directory
    >> perform (open_file o.lock_path) a.opened
    >>= λ handle. own handle o a

-- `release`: the lock after the call, and what the promise is bound to.
unfoldable pub release : RuntimeLock → Closing → Effect (RuntimeLock × Option Error)
unfolding close_handle
release lock closing = elim lock.released [
  | some result ↦ return (lock, result)
  | none ↦ close_handle lock.handle true lock.description closing >>= λ result.
      return (record lock { released = some result }, result)
]

-- All the steps run, and then the first failure is thrown. Steps that wait for each other are not
-- told apart from steps that run one by one.
unfoldable pub cleanup_all : {S : Type 0} → List (Run Thrown S (Unit {0})) → Run Thrown S (Unit {0})
cleanup_all [] s = done tt s
cleanup_all (step ∷ steps) s = elim (step s) [
  | done u s' ↦ cleanup_all steps s'
  | thrown t s' ↦ elim (cleanup_all steps s') [
    | done u s'' ↦ thrown t s''
    | thrown later s'' ↦ thrown t s''
  ]
]

-- The functions of `node:path` that are called.
pub record Paths : Type 0 where
  pub resolve : Text → Text
  pub dirname : Text → Text
  pub basename : Text → Text
  pub join : Text → Text → Text

pub peer_runtime_lock_path : Paths → Text → Text
peer_runtime_lock_path p state_dir =
    let resolved = p.resolve state_dir in
    p.join (p.dirname resolved) (b'.' ∷ p.basename resolved ++ codes ".peer.runtime.lock")

pub acquire_peer_runtime_lock : Paths → Text → Answers → Effect RuntimeLock
unfolding acquire_runtime_lock peer_runtime_lock_path
acquire_peer_runtime_lock p state_dir = acquire_runtime_lock (record {
  lock_path = peer_runtime_lock_path p state_dir;
  directory = p.dirname (peer_runtime_lock_path p state_dir);
  conflict_message = codes "Peer identity is already in use";
  description = some (codes "peer runtime lock");
})
