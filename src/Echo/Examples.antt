-- ===== src/Echo/Examples.antt =====
-- Numbers with insertion sort for `double` with `std::sort`, and runs of the server.
use mathlib.Core.List.{Pairwise, Pairwise-singleton, Perm, Mem, eq-or-mem_of_mem-cons}
use mathlib.Core.List.Perm
use mathlib.Core.Logic.Or
use mathlib.Core.Bool.{Bool-set}
use coasio.Common.{
  ℕ, ◌*◌, ◌/◌, ◌==◌, ◌+◌, ◌≤◌, ◌≡◌, refl, true, false, List, [], ◌∷◌, none, some, arith, leb, inl,
  inr, Bool-cases, if◌then◌else◌, subst, sym, is_some,
}
use coasio.Async.{asio_error, value, failed, pos}
use coasio.Net.{AsioAcceptor, listener_bind, listener_listen, bind_acceptor}
use coasio.Echo.{get_elem?, Doubles, Metrics, metrics, get_percentiles, get_percentile_value}
use coasio.Echo.Window.{add_samples}
use coasio.Echo.Percentiles.{samples_window, get_percentile_value_total}
use coasio.Echo.Server.{
  Stats, Monitor, fresh_monitor, reading, enter_client, after_read, after_write, serve,
}
use coasio.Echo.Server.Watching.{watch, watch_window}
use coasio.Echo.Server.Clients.{
  World, Reach, here, next, accepted, read_done, write_done, counters_true,
}
use coasio.Echo.Server.Serving.{serve_spawns}

ordered_insert : ℕ → List ℕ → List ℕ
ordered_insert x [] = x ∷ []
ordered_insert x (y ∷ ys) =
    let more = ordered_insert x ys in if leb x y then x ∷ y ∷ ys else y ∷ more

insertion_sort : List ℕ → List ℕ
insertion_sort [] = []
insertion_sort (x ∷ xs) = ordered_insert x (insertion_sort xs)

ordered_insert-Perm : (x : ℕ) (ys : List ℕ) → Perm (ordered_insert x ys) (x ∷ ys)
unfolding ordered_insert
ordered_insert-Perm x [] = Perm.rfl
ordered_insert-Perm x (y ∷ ys) =
    elim (leb x y) as (λ b. Perm (if b then x ∷ y ∷ ys else y ∷ ordered_insert x ys) (x ∷ y ∷ ys)) [
      | true ↦ Perm.rfl
      | false ↦ Perm.trans (Perm.cons y (ordered_insert-Perm x ys)) (Perm.swap x y ys)
    ]

insertion_sort-Perm : (xs : List ℕ) → Perm (insertion_sort xs) xs
unfolding insertion_sort
insertion_sort-Perm [] = Perm.rfl
insertion_sort-Perm (x ∷ xs) =
    Perm.trans (ordered_insert-Perm x (insertion_sort xs)) (Perm.cons x (insertion_sort-Perm xs))

abbrev Ascending : List ℕ → Type 0
Ascending = Pairwise (λ a b. leb a b ≡ true)

-- `a` is below `y` and what is above `y`.
below_cons :
    (a y : ℕ) (ys : List ℕ)
    → leb a y ≡ true
    → ((b : ℕ) → Mem b ys → leb a b ≡ true)
    → (b : ℕ) → Mem b (y ∷ ys)
    → leb a b ≡ true
below_cons a y ys h below b m =
    Or.elim (Bool-set (leb a b) true) (eq-or-mem_of_mem-cons m)
      (λ e. subst (λ z. leb a z ≡ true) (sym e) h) (λ i. below b i)

leb_trans : (a b c : ℕ) → leb a b ≡ true → leb b c ≡ true → leb a c ≡ true
leb_trans a b c h k = ground arith

ordered_insert-Ascending : (x : ℕ) (ys : List ℕ) → Ascending ys → Ascending (ordered_insert x ys)
unfolding ordered_insert
ordered_insert-Ascending x [] Pairwise.nil = Pairwise-singleton _ x
ordered_insert-Ascending x (y ∷ ys) (Pairwise.cons below s) = elim (Bool-cases (leb x y)) [
  | inl h ↦
      subst (λ b. Ascending (if b then x ∷ y ∷ ys else y ∷ ordered_insert x ys)) (sym h)
        (Pairwise.cons (below_cons x y ys h (λ b m. leb_trans x y b h (below b m)))
          (Pairwise.cons below s))
  | inr h ↦
      subst (λ b. Ascending (if b then x ∷ y ∷ ys else y ∷ ordered_insert x ys)) (sym h)
        (Pairwise.cons
          (λ b m.
            below_cons y x ys (ground (arith, h)) below b
              ((Perm.mem_iff (ordered_insert-Perm x ys)).0 m))
          (ordered_insert-Ascending x ys s))
]

insertion_sort-Ascending : (xs : List ℕ) → Ascending (insertion_sort xs)
unfolding insertion_sort
insertion_sort-Ascending [] = Pairwise.nil
insertion_sort-Ascending (x ∷ xs) =
    ordered_insert-Ascending x (insertion_sort xs) (insertion_sort-Ascending xs)

leb_antisymm : (a b : ℕ) → leb a b ≡ true → leb b a ≡ true → a ≡ b
leb_antisymm a b h k = ground arith

leb_refl : (a : ℕ) → leb a a ≡ true
leb_refl a = ground arith

abbrev numbers : Doubles ℕ
numbers = record {
  le = leb;
  le_refl = leb_refl;
  le_antisymm = leb_antisymm;
  sort = insertion_sort;
  sort-Pairwise = insertion_sort-Ascending;
  sort-Perm = insertion_sort-Perm;
  zero_double = 0;
  rank = λ percent n. (percent * n + 99) / 100;
}

-- Five samples in a ring of three.
samples_window_example :
    (m : Metrics ℕ) × (add_samples (7 ∷ 1 ∷ 9 ∷ 4 ∷ 2 ∷ []) (metrics 3) ≡ some m)
    × Perm m.samples (9 ∷ 4 ∷ 2 ∷ [])
    × (get_percentiles numbers m.samples ≡ get_percentiles numbers (9 ∷ 4 ∷ 2 ∷ []))
samples_window_example = samples_window numbers 3 (7 ∷ 1 ∷ 9 ∷ 4 ∷ 2 ∷ []) (omega arith)

get_percentile_value_total_run : is_some (get_percentile_value numbers (2 ∷ 4 ∷ 9 ∷ []) 90) ≡ true
get_percentile_value_total_run =
    get_percentile_value_total numbers (2 ∷ 4 ∷ 9 ∷ []) 90 (omega arith)

ninety : get_percentile_value numbers (2 ∷ 4 ∷ 9 ∷ []) 90 ≡ some 9
unfolding get_percentile_value get_elem?
ninety = refl

abbrev snapshot : ℕ → ℕ → Stats
snapshot r s = record { active_clients = 1; total_bytes_received = r; total_bytes_sent = s }

abbrev two_seconds : List Stats
two_seconds = snapshot 4096 1024 ∷ snapshot 5120 5120 ∷ []

abbrev per_kib : ℕ → ℕ
per_kib n = n / 1024

watch_window_example :
    (m : Monitor ℕ) × (watch per_kib two_seconds fresh_monitor ≡ some m)
    × (get_percentiles numbers m.in_metrics.samples ≡ get_percentiles numbers (4 ∷ 1 ∷ []))
    × (get_percentiles numbers m.out_metrics.samples ≡ get_percentiles numbers (1 ∷ 4 ∷ []))
watch_window_example = watch_window numbers per_kib two_seconds

-- One client that sends five bytes and gets them back, and one that comes and says nothing.
abbrev echoing : World
echoing = record {
  stats = record { active_clients = 2; total_bytes_received = 5; total_bytes_sent = 5 };
  handlers = reading ∷ reading ∷ [];
  received = 5;
  sent = 5;
}

echoing_lem : Reach echoing
unfolding enter_client after_read after_write
echoing_lem =
    next
      (next (next (next here accepted) (read_done [] [] (value 5) refl))
        (write_done [] [] 5 (value 5) refl (omega arith)))
      accepted

counters_true_example :
    (echoing.stats.active_clients ≡ 2)
    × (echoing.stats.total_bytes_received ≡ 5)
    × (echoing.stats.total_bytes_sent + 0 ≤ echoing.stats.total_bytes_received)
counters_true_example = counters_true echoing echoing_lem (omega arith) (omega arith)

-- A port that is free, and a client before asio reports an error.
abbrev acceptors : AsioAcceptor ℕ ℕ ℕ
acceptors = record {
  fresh = 0;
  protocol = λ ep. 4;
  open_as = λ l p. (1, none);
  is_open = λ l. l == 1;
  reuse_address = λ l. (l, none);
  bind = λ l ep. (l, none);
  listen = λ l n. (l, none);
  close = λ l. (0, none);
  local_endpoint = λ l. (8080, none);
}

bound : listener_bind acceptors 8080 true ≡ value 1
unfolding listener_bind bind_acceptor
bound = refl

listening : listener_listen acceptors 1 128 ≡ (1, value tt)
unfolding listener_listen
listening = refl

serve_spawns_run :
    serve {S = ℕ} acceptors 8080 128 (value 3 ∷ value 4 ∷ failed (asio_error 24) ∷ [])
    ≡ (3 ∷ 4 ∷ [], some (pos 1))
serve_spawns_run =
    serve_spawns acceptors 8080 128 1 1 (3 ∷ 4 ∷ []) (asio_error 24) [] bound listening
