-- ===== src/Runtime/BlockOn.antt =====
-- include/coasio/runtime.hpp and include/coasio.hpp: `block_on`, the overloads of `spawn`, and
-- the functions that ask for the thread's runtime.
use coasio.Common.{
  ℕ, ◌≡◌, refl, ◌⊎◌, inl, inr, ap, true, false, Option, none, some, if◌then◌else◌, has, ◌==◌, ◌∙◌,
  List, [], ◌∷◌, ◌++◌, length, suc, ◌<◌, ◌^◌, ◌||◌, arith, has-append,
}
use coasio.Links.{Ptr, null}
use coasio.Error.{ok, err}
use coasio.Blocking.{Resumed, returned, rethrown, undefined}
use coasio.Task.{
  Frame, complete, await_ready, await_suspend, await_resume, final_suspend, awaited_child, is_valid,
  set_owning_scope,
}
use coasio.Runtime.{Runtime, JoinHandle, spawn, enter_context, leave_context}
use coasio.Runtime.Roots.{Rep}
use coasio.Runtime.Spawn.{spawn-Rep}

-- `std::promise` and its future; `none` is a wait without end.
pub data StdPromise {ℓ} (A : Type ℓ) : Type ℓ where
  unset : StdPromise A
  with_value : A → StdPromise A
  with_exception : ℕ → StdPromise A

module _ {ℓ} {A : Type ℓ} where
  -- The body of the root that `_block_on` spawns, from what awaiting the task gives it: the promise
  -- after it. A task gives no error code, and a read of a result that is not there is undefined.
  unfoldable pub fulfil : Resumed A → StdPromise A
  fulfil (returned (ok v)) = with_value v
  fulfil (returned (err e)) = unset
  fulfil (rethrown e) = with_exception e
  fulfil undefined = unset

  unfoldable pub future_get : StdPromise A → Option (Resumed A)
  future_get unset = none
  future_get (with_value v) = some (returned (ok v))
  future_get (with_exception e) = some (rethrown e)

  -- `co_await` of the task `h` in the root that `_block_on` spawns, when the body of the task ends with
  -- `end`, up to the setting of the promise. The root goes on if it is the coroutine that the task's
  -- end resumes.
  unfoldable pub await_task : Ptr → Frame A → A ⊎ ℕ → Ptr → StdPromise A
  await_task h f end root =
      if await_ready h f
      then fulfil (if h == null then undefined else await_resume f)
      else let (child, _, _, _, resumed) =
          final_suspend (complete end (await_suspend f root)) none in
        if elim resumed [ none ↦ false | some c ↦ c == root ]
        then fulfil (await_resume child)
        else unset

-- What `_block_on` leaves: what `future.get()` gives, the runtime with the root, the scope of the task
-- that is awaited, and the runtime of the thread.
pub record BlockedOn {ℓ} (A B : Type ℓ) : Type ℓ where
  pub result : Option (Resumed A)
  pub rt : Runtime B
  pub task_scope : Option ℕ
  pub current : Option ℕ

-- `_block_on` on the runtime number `self`, of the task `h` in the frame `f`, whose body ends with
-- `end`, with the coroutine, the scope and the channel of the root that it spawns. A coroutine that is
-- in the queue is resumed by a worker.
unfoldable pub block_on {ℓ} :
    {A B : Type ℓ} → Option ℕ → ℕ → Runtime B → Ptr → ℕ → ℕ → Ptr → Frame A → A ⊎ ℕ → BlockedOn A B
block_on current self r root scope channel h f end =
    let (inside, prev) = enter_context current self in
    let r₁ = (spawn r root scope channel).0 in
    let child = set_owning_scope (r₁.frames root).promise.owning_scope f in
    record {
      result = future_get (if has root r₁.global_tasks then await_task h child end root else unset);
      rt = r₁;
      task_scope = child.promise.owning_scope;
      current = leave_context inside prev;
    }

-- A task, or a callable that makes one.
pub data Spawnable {ℓ} (A : Type ℓ) : Type ℓ where
  a_task : Ptr → Spawnable A
  callable : (Runtime A → Runtime A × Ptr) → Spawnable A

-- `spawn`
unfoldable pub spawn_any {ℓ} :
    {A : Type ℓ} → Runtime A → Spawnable A → ℕ → ℕ → Runtime A × JoinHandle
spawn_any r (a_task h) scope channel = spawn r h scope channel
spawn_any r (callable f) scope channel = let (r₁, h) = f r in spawn r₁ h scope channel

-- `block_on` of a task or of a callable, whose task's body ends with `end`.
unfoldable pub block_on_any {ℓ} :
    {A : Type ℓ} → Option ℕ → ℕ → Runtime A → Ptr → ℕ → ℕ → Spawnable A → A ⊎ ℕ → BlockedOn A A
block_on_any current self r root scope channel (a_task h) end =
    block_on current self r root scope channel h (r.frames h) end
block_on_any current self r root scope channel (callable f) end =
    let (r₁, h) = f r in block_on current self r₁ root scope channel h (r₁.frames h) end

-- `std::terminate` or a result.
pub data Ran {ℓ} (A : Type ℓ) : Type ℓ where
  ran : A → Ran A
  terminated : Ran A

-- `get_current_io_context`, with the runtime of the thread; its context is `context`.
unfoldable pub get_current_io_context : (ℕ → ℕ) → Option ℕ → Ran ℕ
get_current_io_context context none = terminated
get_current_io_context context (some rt) = ran (context rt)

-- `coasio::spawn`
unfoldable pub spawn_current {ℓ} :
    {A : Type ℓ} → Option (Runtime A) → Spawnable A → ℕ → ℕ → Ran (Runtime A × JoinHandle)
spawn_current none arg scope channel = terminated
spawn_current (some r) arg scope channel = ran (spawn_any r arg scope channel)

fulfilled {ℓ} :
    {A : Type ℓ} (end : A ⊎ ℕ)
    → future_get (fulfil (elim end [ inl v ↦ returned (ok v) | inr e ↦ rethrown e ]))
      ≡ some (elim end [ inl v ↦ returned (ok v) | inr e ↦ rethrown e ])
unfolding future_get fulfil
fulfilled (inl v) = refl
fulfilled (inr e) = refl

-- A valid task is awaited to its end.
await_task_lem {ℓ} :
    {A : Type ℓ} (h : Ptr) (f : Frame A) (end : A ⊎ ℕ) (root : Ptr)
    → is_valid h f ≡ true
    → f.promise.detached ≡ false
    → f.promise.exception ≡ none
    → future_get (await_task h f end root)
      ≡ some (elim end [ inl v ↦ returned (ok v) | inr e ↦ rethrown e ])
unfolding await_task is_valid await_ready future_get fulfil
await_task_lem h f end root valid child clean =
    let (resumed, result) = awaited_child end f root child clean in
    let busy : (h == null) || f.done ≡ false = ground (arith, valid) in
    let same : (root == root) ≡ true = ground arith in
    rw busy (rw resumed (rw same (ap (λ r. future_get (fulfil r)) result ∙ fulfilled end)))

-- What `_block_on` uses of the spawning of its root.
spawned_root {ℓ} :
    {B : Type ℓ} (r : Runtime B) (xs : List Ptr) (root scope channel : ℕ)
    → Rep r xs
    → has root xs ≡ false
    → suc (length xs) < 2 ^ 64
    → is_valid root (r.frames root) ≡ true
    → let r' = (spawn r root scope channel).0 in
      Rep r' (root ∷ xs)
      × (r'.global_tasks ≡ r.global_tasks ++ root ∷ [])
      × (has root r'.global_tasks ≡ true)
      × ((r'.frames root).promise.owning_scope ≡ some scope)
spawned_root r xs root scope channel rep out room new =
    let (listed, queue, _, frames, _, _) =
      (rw new at (spawn-Rep r xs root scope channel rep out room)) in
    (
      listed,
      queue,
      ground (arith, queue, has-append root r.global_tasks (root ∷ [])),
      ground (arith, ap (λ fs. (fs root).promise.owning_scope) frames),
    )

-- `block_on` on a runtime whose list of roots is well-formed, with room in the count and a new root
-- coroutine, of a valid task that is not detached and holds no exception: the root is registered
-- and scheduled, the task runs under the root's scope, and when its body ends the root goes on, and
-- `block_on` returns the value of the body, or rethrows its exception. The thread has the runtime
-- that it had before.
pub block_on_lem {ℓ} :
    {A B : Type ℓ} (current : Option ℕ) (self : ℕ) (r : Runtime B) (xs : List Ptr)
    (root scope channel : ℕ) (h : Ptr) (f : Frame A) (end : A ⊎ ℕ)
    → Rep r xs
    → has root xs ≡ false
    → suc (length xs) < 2 ^ 64
    → is_valid root (r.frames root) ≡ true
    → is_valid h f ≡ true
    → f.promise.detached ≡ false
    → f.promise.exception ≡ none
    → let b = block_on current self r root scope channel h f end in
      (b.result ≡ some (elim end [ inl v ↦ returned (ok v) | inr e ↦ rethrown e ]))
      × Rep b.rt (root ∷ xs)
      × (b.rt.global_tasks ≡ r.global_tasks ++ root ∷ [])
      × (b.task_scope ≡ some scope)
      × (b.current ≡ current)
unfolding block_on enter_context leave_context set_owning_scope is_valid
block_on_lem current self r xs root scope channel h f end rep out room new valid child clean =
    let (listed, queue, queued, scoped) = spawned_root r xs root scope channel rep out room new in
    let inner =
      set_owning_scope (((spawn r root scope channel).0.frames root).promise.owning_scope) f in
    (rw queued (await_task_lem h inner end root valid child clean), listed, queue, scoped, refl)
