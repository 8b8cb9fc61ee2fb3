-- ===== src/Async/Leaf/Race.antt =====
-- One `co_await` of an awaitable on asio, against the thread that completes the operation and a thread
-- that cancels the scope. asio's documented behaviour: `sig_.emit` reaches the operation if the
-- operation has been started on the signal's slot and is not complete, and is lost otherwise.
pub mod Safety
pub mod Progress
use coasio.Common.{ℕ, suc, ◌≡◌, Bool, true, false, not, ◌&&◌, ◌||◌, Option, none, some, is_some}
use coasio.CancelScope.{ArmResult}
use coasio.Async.{Suspended}
use coasio.Async.Leaf.{Leaf}

-- Where `await_suspend` stands.
pub data Pc : Type 0 where
  begin : Pc  -- before `guard_.arm`
  armed : Pc  -- before the operation is started
  waiting : Pc  -- it returned, asio has the operation
  refused : Pc  -- it returned, the guard was not armed and the coroutine was scheduled

abbrev pub is_armed : Pc → Bool
is_armed armed = true
is_armed waiting = true
is_armed _ = false

abbrev pub is_waiting : Pc → Bool
is_waiting waiting = true
is_waiting _ = false

module _ {ℓ} {S C R : Type ℓ} (leaf : Leaf S C R) where
  -- `completion` is what asio called the handler with.
  pub record World : Type ℓ where
    pub pc : Pc
    pub off : Bool  -- the scope's flag
    pub firing : Bool  -- the guard's callback is about to run, under the scope's mutex
    pub signalled : Bool  -- the signal has reached the operation
    pub completion : Option C
    pub scheduled : ℕ  -- how often `h` was handed to the runtime
    pub awaiter : S

  abbrev pub begin_world : S → Bool → World
  begin_world s off = record {
    pc = begin;
    off = off;
    firing = false;
    signalled = false;
    completion = none;
    scheduled = 0;
    awaiter = s;
  }

  -- `complete` waits for a callback that is under way, since the handler disarms the guard under the
  -- scope's mutex, and a guard that is disarmed does not fire.
  pub data Step (w : World) : World → Type ℓ where
    arm :
        w.pc ≡ begin
        → w.off ≡ false
        → Step w (record w { pc = armed; awaiter = (leaf.suspend w.awaiter ArmResult.armed).0 })
    arm_refused :
        w.pc ≡ begin
        → w.off ≡ true
        → Step w (record w {
          pc = refused;
          awaiter = (leaf.suspend w.awaiter ArmResult.already_cancelled).0;
          scheduled = suc w.scheduled;
        })
    initiate : w.pc ≡ armed → Step w (record w { pc = waiting })
    complete :
        (c : C)
        → w.pc ≡ waiting
        → is_some w.completion ≡ false
        → w.firing ≡ false
        → Step w (record w {
          completion = some c;
          awaiter = leaf.complete c w.awaiter;
          scheduled = suc w.scheduled;
        })
    scope_off :
        w.off ≡ false
        → Step w (record w { off = true; firing = is_armed w.pc && not (is_some w.completion) })
    callback :
        w.firing ≡ true
        → Step w (record w { firing = false; signalled = w.signalled || is_waiting w.pc })

  pub data Reach (v : World) : World → Type ℓ where
    here : Reach v v
    next : {w w' : World} → Reach v w → Step w w' → Reach v w'
