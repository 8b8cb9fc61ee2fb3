-- ===== src/Task/Ownership.antt =====
-- include/coasio/task.hpp: who destroys a coroutine. A place is whatever holds a handle: a `task`, the
-- awaiter of `operator co_await`, or the runtime for a root. A frame is an address.
use coasio.Common.{ℕ, suc, ◌≤◌, ◌≡◌, refl, true, false, arith, ◌==◌, if◌then◌else◌, ==→eq}
use coasio.Links.{Ptr, null, put}

pub record Handles : Type 0 where
  pub holds : ℕ → Ptr
  pub destroyed : Ptr → ℕ  -- how often `destroy()` was called

abbrev pub no_handles : Handles
no_handles = record { holds = λ v. null; destroyed = λ h. 0 }

-- `if (handle_) handle_.destroy();`
unfoldable pub destroy_frame : Ptr → Handles → Handles
destroy_frame h s =
    if h == null then s else record s { destroyed = put s.destroyed h (suc (s.destroyed h)) }

-- `task(std::coroutine_handle<promise_type> h)`
unfoldable pub make_task : ℕ → Ptr → Handles → Handles
make_task v h s = record s { holds = put s.holds v h }

-- `release()`: the handle, and the task without it.
unfoldable pub release : ℕ → Handles → Ptr × Handles
release v s = (s.holds v, record s { holds = put s.holds v null })

-- `task(task &&o)`, `operator co_await` and, but for the flag in the frame, `detach`: `v` takes what `u` lets go.
unfoldable pub move_task : ℕ → ℕ → Handles → Handles
move_task v u s = let (h, t) = release u s in make_task v h t

-- `operator=(task &&o)`
unfoldable pub assign_task : ℕ → ℕ → Handles → Handles
assign_task v u s = if v == u then s else move_task v u (destroy_frame (s.holds v) s)

-- `~task()` and `~awaiter()`; the place is free after it.
unfoldable pub destroy_task : ℕ → Handles → Handles
destroy_task v s = let t = destroy_frame (s.holds v) s in record t { holds = put t.holds v null }

-- A program. A new frame is in no place and was not destroyed; a place that is constructed is free.
pub data Step (s : Handles) : Handles → Type 0 where
  make :
      (v : ℕ) (h : Ptr)
      → s.holds v ≡ null
      → ((u : ℕ) → (s.holds u == h) ≡ false)
      → s.destroyed h ≡ 0
      → Step s (make_task v h s)
  move : (v u : ℕ) → s.holds v ≡ null → (v == u) ≡ false → Step s (move_task v u s)
  assign : (v u : ℕ) → Step s (assign_task v u s)
  destroy : (v : ℕ) → Step s (destroy_task v s)

pub data Reach : Handles → Type 0 where
  here : Reach no_handles
  next : {s t : Handles} → Reach s → Step s t → Reach t

-- Every frame is destroyed at most once, and not while a place holds it; no two places hold one frame.
record Inv (s : Handles) : Type 0 where
  pub once : (h : Ptr) → s.destroyed h ≤ 1
  pub alive : (v : ℕ) → (s.holds v == null) ≡ false → s.destroyed (s.holds v) ≡ 0
  pub sole :
      (u v : ℕ) → (s.holds v == null) ≡ false → (s.holds u == s.holds v) ≡ true → (u == v) ≡ true

Step-Inv : {s t : Handles} → Step s t → Inv s → Inv t
unfolding make_task move_task assign_task destroy_task destroy_frame release
Step-Inv {s} (make v h free new unused) i = record {
  once = i.once;
  alive = λ w n. ground (arith, n, unused, i.alive w);
  sole = λ a b n e. ground (arith, n, e, new a, new b, i.sole a b);
}
Step-Inv {s} (move v u free other) i = record {
  once = i.once;
  alive = λ w n. ground (arith, n, free, other, i.alive w, i.alive u);
  sole = λ a b n e. ground (arith, n, e, free, other, i.sole a b, i.sole u b, i.sole a u);
}
Step-Inv {s} (destroy v) i = record {
  once = λ h. ground (arith, i.once h, i.alive v);
  alive = λ w n. ground (arith, n, i.alive w, i.sole w v, i.sole v w);
  sole = λ a b n e. ground (arith, n, e, i.sole a b);
}
Step-Inv {s} (assign v u) i = record {
  once = λ h. ground (arith, i.once h, i.alive v);
  alive = λ w n. ground (arith, n, i.alive w, i.alive u, i.sole w v, i.sole u v);
  sole = λ a b n e. ground (arith, n, e, i.sole a b, i.sole u b, i.sole a u);
}

Reach-Inv : (s : Handles) → Reach s → Inv s
Reach-Inv s here = record {
  once = λ h. omega arith;
  alive = λ v n. refl;
  sole = λ u v n e. ground (arith, n);
}
Reach-Inv s (next {s = r} reach st) = Step-Inv st (Reach-Inv r reach)

-- In every program of constructions, moves, assignments and destructions of tasks and awaiters, a
-- frame is destroyed at most once; a frame that a place holds has not been destroyed, and no other
-- place holds it.
pub destroyed_once :
    (s : Handles) (h : Ptr) (u v : ℕ)
    → Reach s
    → (s.holds v == null) ≡ false
    → s.holds u ≡ s.holds v
    → (s.destroyed h ≤ 1) × (s.destroyed (s.holds v) ≡ 0) × (u ≡ v)
destroyed_once s h u v r n e =
    let i = Reach-Inv s r in (i.once h, i.alive v n, ==→eq u v (i.sole u v n (ground (arith, e))))

-- Assigning to a task that holds a frame destroys that frame, takes over the other and leaves it none.
pub assign_destroys :
    (s : Handles) (v u : ℕ)
    → Reach s
    → (v == u) ≡ false
    → (s.holds v == null) ≡ false
    → ((assign_task v u s).destroyed (s.holds v) ≡ 1)
      × ((assign_task v u s).holds v ≡ s.holds u)
      × ((assign_task v u s).holds u ≡ null)
unfolding assign_task move_task make_task release destroy_frame
assign_destroys s v u r other n =
    let i = Reach-Inv s r in
    (ground (arith, other, n, i.alive v n), ground (arith, other, n), ground (arith, other, n))
