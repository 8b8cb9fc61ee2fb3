-- ===== src/CancelScope/Rep.antt =====
-- The well-formed scopes: the list of the scope holds exactly its armed guards.
use coasio.Common.{
  ℕ, ◌≡◌, ◌≢◌, refl, true, false, not, ◌&&◌, List, [], ◌∷◌, some, arith, ◌==◌, if◌then◌else◌, has,
  erase, erase_absent, is_empty, has-is_empty, inl, inr, Bool-cases,
}
use coasio.Links.{Ptr, null, splice, clear}
use coasio.Links.Chain.{
  Chain, clear-Joins, erase-Chain, link_front-Chain, mem-ne-null, prev_of_mem, not-has-erase_self,
}
use coasio.CancelScope.{
  GuardState, ArmResult, Guard, Scope, is_armed, set_guard, link_locked, unlink_locked, enlist, arm,
  disarm,
}

pub record Rep (s : Scope) (xs : List Ptr) : Type 0 where
  pub chain : Chain s.links null s.head xs
  pub listed : (a : Ptr) → has a xs ≡ ((s.guards a).bound && is_armed (s.guards a).state)

-- Between the operations, a cancelled scope has no armed guard.
pub record Inv (s : Scope) (xs : List Ptr) : Type 0 where
  pub rep : Rep s xs
  pub closed : (s.cancelled && not (is_empty xs)) ≡ false

null_fresh : (s : Scope) (xs : List Ptr) → Rep s xs → has null xs ≡ false
null_fresh s xs r = elim (Bool-cases (has null xs)) [
  | inl e ↦ absurd (mem-ne-null s.links null s.head xs r.chain null e refl)
  | inr e ↦ e
]

has-erase_ne : (a w : Ptr) (xs : List Ptr) → (a == w) ≡ false → has a (erase w xs) ≡ has a xs
has-erase_ne a w [] e = refl
has-erase_ne a w (x ∷ xs) e = ground (arith, has-erase_ne a w xs e)

-- Taking an armed guard off the list, and giving it another state.
pub unlink-Rep :
    (s : Scope) (xs : List Ptr) (g : Ptr) (v : Guard)
    → Rep s xs
    → has g xs ≡ true
    → is_armed v.state ≡ false
    → Rep (set_guard (unlink_locked s g) g v) (erase g xs)
unfolding unlink_locked
unlink-Rep s xs g v r m off =
    let fresh = null_fresh s xs r in
    let joins = clear-Joins s.links g in
    let erased =
      erase-Chain s.links (clear (splice s.links g) g) g joins null s.head xs r.chain m in
    let first = prev_of_mem s.links null s.head xs r.chain g m fresh in
    record {
      chain = rw first.0 (erased fresh);
      listed = λ a. ground (
        arith,
        r.listed a,
        has-erase_ne a g xs,
        not-has-erase_self s.links null s.head xs r.chain g,
      );
    }

-- Putting a guard in front, armed.
pub link-Rep :
    (s : Scope) (xs : List Ptr) (g : Ptr) (v : Guard)
    → Rep s xs
    → g ≢ null
    → has g xs ≡ false
    → v.bound && is_armed v.state ≡ true
    → Rep (set_guard (link_locked s g) g v) (g ∷ xs)
unfolding link_locked
link-Rep s xs g v r h out on = record {
  chain = link_front-Chain s.links s.head g xs r.chain h out;
  listed = λ a. ground (arith, r.listed a, on);
}

-- A guard that is not on the list stays off it.
pub set_guard-Rep :
    (s : Scope) (xs : List Ptr) (g : Ptr) (v : Guard)
    → Rep s xs
    → has g xs ≡ false
    → v.bound && is_armed v.state ≡ false
    → Rep (set_guard s g v) xs
set_guard-Rep s xs g v r out off = record {
  chain = r.chain;
  listed = λ a. ground (arith, r.listed a, off);
}

pub arm_refused :
    (s : Scope) (g : Ptr) (f : ℕ)
    → (s.guards g).bound ≡ true
    → s.cancelled ≡ true
    → arm s g f ≡ (s, ArmResult.already_cancelled)
unfolding arm
arm_refused s g f bound off = rw (bound, off)

pub arm_linked :
    (s : Scope) (g : Ptr) (f : ℕ)
    → (s.guards g).bound ≡ true
    → s.cancelled ≡ false
    → arm s g f ≡ (enlist s g f, ArmResult.armed)
unfolding arm
arm_linked s g f bound live = rw (bound, live)

pub enlist-Inv :
    (s : Scope) (xs : List Ptr) (g : Ptr) (f : ℕ)
    → Inv s xs
    → g ≢ null
    → has g xs ≡ false
    → (s.guards g).bound ≡ true
    → s.cancelled ≡ false
    → Inv (enlist s g f) (g ∷ xs) × (is_armed ((enlist s g f).guards g).state ≡ true)
unfolding enlist link_locked
enlist-Inv s xs g f i h out bound live =
    let v : Guard = record (s.guards g) { cb = some f } in
    let quiet : (v.bound && is_armed v.state) ≡ false = ground (arith, i.rep.listed g) in
    (
      record {
        rep =
            link-Rep (set_guard s g v) xs g _ (set_guard-Rep s xs g v i.rep out quiet) h out
              (ground arith);
        closed = ground arith;
      },
      ground arith,
    )

-- Arming an idle guard keeps the scope well-formed: a guard of no scope is only marked; on a live
-- scope the guard goes to the front of the list; on a cancelled scope it is refused and nothing
-- changes.
pub arm-Inv :
    (s : Scope) (xs : List Ptr) (g : Ptr) (f : ℕ)
    → Inv s xs
    → g ≢ null
    → (s.guards g).state ≡ GuardState.idle
    → let linked = (s.guards g).bound && not s.cancelled in
      let refused = (s.guards g).bound && s.cancelled in
      Inv (arm s g f).0 (if linked then g ∷ xs else xs)
      × ((arm s g f).1 ≡ (if refused then ArmResult.already_cancelled else ArmResult.armed))
      × (is_armed ((arm s g f).0.guards g).state ≡ not refused)
unfolding arm
arm-Inv s xs g f i h quiet =
    let out : has g xs ≡ false = ground (arith, i.rep.listed g, quiet) in
    let linked = (s.guards g).bound && not s.cancelled in
    let refused = (s.guards g).bound && s.cancelled in
    elim (Bool-cases (s.guards g).bound) [
      | inr free ↦ rw free (
        record { rep = set_guard-Rep s xs g _ i.rep out refl; closed = i.closed },
        refl,
        ground arith,
      )
      | inl bound ↦ elim (Bool-cases s.cancelled) [
        | inl off ↦
            let no_link : linked ≡ false = ground arith in
            let refuses : refused ≡ true = ground arith in
            rw (arm_refused s g f bound off, no_link, refuses) (i, refl, ground (arith, quiet))
        | inr live ↦
            let links : linked ≡ true = ground arith in
            let takes : refused ≡ false = ground arith in
            let (inv, on) = enlist-Inv s xs g f i h out bound live in
            rw (arm_linked s g f bound live, links, takes) (inv, refl, on)
      ]
    ]

-- Disarming keeps the scope well-formed: it takes the guard off the list, answers whether it was
-- armed, and leaves it not armed.
pub disarm-Inv :
    (s : Scope) (xs : List Ptr) (g : Ptr)
    → Inv s xs
    → Inv (disarm s g).0 (erase g xs)
      × ((disarm s g).1 ≡ is_armed (s.guards g).state)
      × (is_armed ((disarm s g).0.guards g).state ≡ false)
unfolding disarm unlink_locked
disarm-Inv s xs g i = elim (Bool-cases (s.guards g).bound) [
  | inr free ↦
      let out : has g xs ≡ false = ground (arith, i.rep.listed g) in
      rw (free, erase_absent g xs out)
        (
          record { rep = set_guard-Rep s xs g _ i.rep out refl; closed = i.closed },
          refl,
          ground arith,
        )
  | inl bound ↦ elim (Bool-cases (is_armed (s.guards g).state)) [
    | inr off ↦
        let out : has g xs ≡ false = ground (arith, i.rep.listed g) in
        rw (bound, off, erase_absent g xs out) (i, refl, off)
    | inl on ↦
        let m : has g xs ≡ true = ground (arith, i.rep.listed g) in
        rw (bound, on)
          (
            record {
              rep = unlink-Rep s xs g _ i.rep m (ground arith);
              closed = ground (arith, has-is_empty g xs m, i.closed);
            },
            refl,
            ground arith,
          )
  ]
]
