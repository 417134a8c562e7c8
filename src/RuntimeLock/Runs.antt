-- ===== src/RuntimeLock/Runs.antt =====
-- A lock that is taken and released twice, and one that another process holds.
use kepos.Common.{false, Option, none, [], ◌∷◌, ◌≡◌, refl, map}
use kepos.Common.Outcome.{done, final}
use kepos.Common.Text.{codes}
use kepos.RuntimeLock.{
  Error, plain, error, make_directory, open_file, try_lock, unlock, close, ok, bad, Closing,
  Options, Answers, RuntimeLock, acquire_runtime_lock,
}
use kepos.RuntimeLock.Acquire.{Settled, acquire-Settled}
use kepos.RuntimeLock.Release.{release_all, release_once}

abbrev smooth : Closing
smooth = record { unlocked = ok tt; closed = ok tt }

abbrev stuck : Closing
stuck = record { unlocked = ok tt; closed = bad (error (plain (codes "EIO"))) }

abbrev options : Options
options = record {
  lock_path = codes "/s/.lock";
  directory = codes "/s";
  conflict_message = codes "in use";
  description = none;
}

abbrev held_elsewhere : Answers
held_elsewhere = record {
  directory = ok tt;
  opened = ok 7;
  locked = ok false;
  mode = ok tt;
  closing = stuck;
}

acquire-Settled_example : Settled held_elsewhere (acquire_runtime_lock options held_elsewhere [])
acquire-Settled_example = acquire-Settled options held_elsewhere

conflict_run :
    final (acquire_runtime_lock options held_elsewhere [])
    ≡ make_directory (codes "/s") ∷ open_file (codes "/s/.lock") ∷ try_lock 7 ∷ close 7 ∷ []
unfolding acquire_runtime_lock
conflict_run = refl

abbrev lock : RuntimeLock
lock = record { handle = 7; description = codes "runtime lock"; released = none }

release_once_example :
    (result : Option Error) × (release_all (stuck ∷ smooth ∷ []) lock []
      ≡ done (map (λ c. result) (stuck ∷ smooth ∷ [])) (unlock 7 ∷ close 7 ∷ []))
release_once_example = release_once lock stuck (smooth ∷ []) [] refl
