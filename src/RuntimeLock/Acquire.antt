-- ===== src/RuntimeLock/Acquire.antt =====
-- What an acquisition leaves open.
use kepos.Common.{
  ℕ, Bool, true, false, Option, none, some, List, [], ◌∷◌, ◌++◌, ◌≡◌, refl, sym, ap, append_assoc,
}
use mathlib.Core.Path.{subst}
use kepos.Common.Outcome.{Outcome, done, thrown, and_then, throw}
use kepos.Common.Text.{Text}
use kepos.RuntimeLock.{
  Thrown, Call, make_directory, open_file, try_lock, unlock, close, Answer, ok, bad, Closing,
  Options, Answers, RuntimeLock, acquire_runtime_lock, close_handle, close_result, described,
  combined, Error, error, plain,
}

-- The handles that were closed, and those whose lock was given back.
abbrev pub closed : List Call → List ℕ
closed [] = []
closed (close h ∷ calls) = h ∷ closed calls
closed (_ ∷ calls) = closed calls

abbrev pub unlocked : List Call → List ℕ
unlocked [] = []
unlocked (unlock h ∷ calls) = h ∷ unlocked calls
unlocked (_ ∷ calls) = unlocked calls

-- The handle that the answers gave, if the file was asked for.
abbrev pub opened : Answer ℕ → List Call → List ℕ
opened (ok h) (open_file path ∷ calls) = h ∷ opened (ok h) calls
opened answer (_ ∷ calls) = opened answer calls
opened answer [] = []

-- The handles on which the lock was given.
abbrev pub granted : Answer Bool → List Call → List ℕ
granted (ok true) (try_lock h ∷ calls) = h ∷ granted (ok true) calls
granted answer (_ ∷ calls) = granted answer calls
granted answer [] = []

abbrev pub Settled : Answers → Outcome Thrown (List Call) RuntimeLock → Type 0
Settled a (done lock calls) =
    (a.opened ≡ ok lock.handle)
    × ((a.locked ≡ ok true)
        × ((a.mode ≡ ok tt)
            × ((closed calls ≡ []) × ((unlocked calls ≡ []) × (lock.released ≡ none)))))
Settled a (thrown t calls) =
    (closed calls ≡ opened a.opened calls) × (unlocked calls ≡ granted a.locked calls)

abbrev closing_calls : ℕ → Bool → List Call
closing_calls handle true = unlock handle ∷ close handle ∷ []
closing_calls handle false = close handle ∷ []

-- The two calls of `closeHandle` are made whatever they answer.
pub close_handle_lem :
    (handle : ℕ) (locked : Bool) (description : Text) (a : Closing) (calls : List Call)
    → (failure : Option Error) × (close_handle handle locked description a calls
        ≡ done failure (calls ++ closing_calls handle locked))
unfolding close_handle
close_handle_lem handle true description a calls = close_both a.unlocked a.closed
  where
    close_both :
        (u c : Answer (Unit {0}))
        → (failure : Option Error) × (close_handle handle true description
              (record { unlocked = u; closed = c })
              calls
            ≡ done failure (calls ++ unlock handle ∷ close handle ∷ []))
    close_both (ok u) (ok c) =
        let failure = close_result none none description in
        (failure, ap (done failure) (append_assoc calls (unlock handle ∷ []) (close handle ∷ [])))
    close_both (ok u) (bad c) =
        let failure = close_result none (some c) description in
        (failure, ap (done failure) (append_assoc calls (unlock handle ∷ []) (close handle ∷ [])))
    close_both (bad u) (ok c) =
        let failure = close_result (some u) none description in
        (failure, ap (done failure) (append_assoc calls (unlock handle ∷ []) (close handle ∷ [])))
    close_both (bad u) (bad c) =
        let failure = close_result (some u) (some c) description in
        (failure, ap (done failure) (append_assoc calls (unlock handle ∷ []) (close handle ∷ [])))
close_handle_lem handle false description a calls = close_one a.closed
  where
    close_one :
        (c : Answer (Unit {0}))
        → (failure : Option Error) × (close_handle handle false description
              (record { unlocked = a.unlocked; closed = c })
              calls
            ≡ done failure (calls ++ close handle ∷ []))
    close_one (ok c) = (close_result none none description, refl)
    close_one (bad c) = (close_result none (some c) description, refl)

-- What follows a closing throws.
closing_throws :
    (P : Outcome Thrown (List Call) RuntimeLock → Type 0) (handle : ℕ) (locked : Bool)
    (description : Text) (a : Closing) (calls : List Call) (next : Option Error → Thrown)
    → ((t : Thrown) → P (thrown t (calls ++ closing_calls handle locked)))
    → P (
        and_then (close_handle handle locked description a calls) (λ failure. throw (next failure)))
closing_throws P handle locked description a calls next h =
    let (failure, e) = close_handle_lem handle locked description a calls in
    subst (λ o. P (and_then o (λ f. throw (next f)))) (sym e) (h (next failure))

settles :
    (o : Options) (directory : Answer (Unit {0})) (file : Answer ℕ) (lock : Answer Bool)
    (mode : Answer (Unit {0})) (closing : Closing)
    → let a : Answers = record {
      directory = directory;
      opened = file;
      locked = lock;
      mode = mode;
      closing = closing;
    } in
      Settled a (acquire_runtime_lock o a [])
unfolding acquire_runtime_lock
settles o (bad t) file lock mode closing = (opened_none file, granted_none lock)
  where
    opened_none : (a : Answer ℕ) → [] ≡ opened a (make_directory o.directory ∷ [])
    opened_none (ok h) = refl
    opened_none (bad t) = refl

    granted_none : (a : Answer Bool) → [] ≡ granted a (make_directory o.directory ∷ [])
    granted_none (ok true) = refl
    granted_none (ok false) = refl
    granted_none (bad t) = refl
settles o (ok u) (bad t) lock mode closing = (refl, granted_none lock)
  where
    granted_none :
        (a : Answer Bool) → [] ≡ granted a (make_directory o.directory ∷ open_file o.lock_path ∷ [])
    granted_none (ok true) = refl
    granted_none (ok false) = refl
    granted_none (bad t) = refl
settles o (ok u) (ok h) (bad t) mode closing =
    closing_throws
      (Settled (record {
        directory = ok u;
        opened = ok h;
        locked = bad t;
        mode = mode;
        closing = closing;
      }))
      h false (described o) closing _ (combined t) (λ t'. (refl, refl))
settles o (ok u) (ok h) (ok false) mode closing =
    closing_throws
      (Settled (record {
        directory = ok u;
        opened = ok h;
        locked = ok false;
        mode = mode;
        closing = closing;
      }))
      h false (described o) closing _ (combined (error (plain o.conflict_message)))
      (λ t'. (refl, refl))
settles o (ok u) (ok h) (ok true) (bad t) closing =
    closing_throws
      (Settled (record {
        directory = ok u;
        opened = ok h;
        locked = ok true;
        mode = bad t;
        closing = closing;
      }))
      h true (described o) closing _ (combined t) (λ t'. (refl, refl))
settles o (ok u) (ok h) (ok true) (ok v) closing = (refl, (refl, (refl, (refl, (refl, refl)))))

-- An acquisition that succeeds has opened the file, got the lock and set the mode, and has neither
-- closed the file nor given the lock back. One that fails has closed the file exactly if it was opened,
-- once, and has given the lock back exactly if it was got, whatever the calls for it answered.
pub acquire-Settled : (o : Options) (a : Answers) → Settled a (acquire_runtime_lock o a [])
unfolding acquire_runtime_lock
acquire-Settled o a = settles o a.directory a.opened a.locked a.mode a.closing
