-- ===== src/RuntimeLock/Release.antt =====
-- The release of a lock: once, whoever asks for it and how often.
use kepos.Common.{true, Option, none, some, List, [], ◌∷◌, ◌++◌, ◌≡◌, refl, map}
use kepos.Common.Outcome.{done, ◌>>=◌, return}
use kepos.RuntimeLock.{Error, Call, unlock, close, Closing, Effect, RuntimeLock, release}
use kepos.RuntimeLock.Acquire.{close_handle_lem}

-- Several callers release the lock, in this order. Each has the answers that it would get.
unfoldable pub release_all : List Closing → RuntimeLock → Effect (List (Option Error))
unfolding release
release_all [] lock = return []
release_all (c ∷ cs) lock =
    release lock c >>= λ r. release_all cs r.0 >>= λ rest. return (r.1 ∷ rest)

release_all-again :
    (cs : List Closing) (lock : RuntimeLock) (result : Option Error) (calls : List Call)
    → lock.released ≡ some result
    → release_all cs lock calls ≡ done (map (λ c. result) cs) calls
unfolding release_all
release_all-again [] lock result calls e = refl
release_all-again (c ∷ cs) lock result calls e =
    rw (e, release) (rw (release_all-again cs lock result calls e) refl)

-- However often a lock is released, the file is unlocked once and then closed once, at the first call,
-- and every caller gets the outcome of that call.
pub release_once :
    (lock : RuntimeLock) (c : Closing) (cs : List Closing) (calls : List Call)
    → lock.released ≡ none
    → (result : Option Error) × (release_all (c ∷ cs) lock calls
        ≡ done (map (λ c. result) (c ∷ cs)) (calls ++ unlock lock.handle ∷ close lock.handle ∷ []))
unfolding release_all
release_once lock c cs calls fresh =
    let (result, e) = close_handle_lem lock.handle true lock.description c calls in
    (
      result,
      rw (fresh, release)
          (rw e (
            rw (release_all-again cs (record lock { released = some result }) result _ refl) refl)),
    )
