-- ===== src/Links.antt =====
-- The intrusive doubly linked lists of the code: the `prev`/`next` members of
-- `semaphore_detail::waiter`, `cancel_guard` and `detail::root_node`. A node is an address; the
-- two members are two maps over addresses, 0 is `nullptr`.
pub mod Chain
use coasio.Common.{ℕ, ◌==◌, if◌then◌else◌}

abbrev pub Ptr : Type 0
Ptr = ℕ

abbrev pub null : Ptr
null = 0

pub record Links : Type 0 where
  pub next : Ptr → Ptr
  pub prev : Ptr → Ptr

abbrev pub put {ℓ} : {A : Type ℓ} → (Ptr → A) → Ptr → A → Ptr → A
put f p v a = if a == p then v else f a

abbrev set_next : Links → Ptr → Ptr → Links
set_next l p v = record l { next = put l.next p v }

abbrev set_prev : Links → Ptr → Ptr → Links
set_prev l p v = record l { prev = put l.prev p v }

-- The neighbours of `w` are joined; `w` keeps its own two pointers.
unfoldable pub splice : Links → Ptr → Links
splice l w =
    let l' = if l.prev w == null then l else set_next l (l.prev w) (l.next w) in
    if l'.next w == null then l' else set_prev l' (l'.next w) (l'.prev w)

-- `w->prev = w->next = nullptr`
unfoldable pub clear : Links → Ptr → Links
clear l w = set_prev (set_next l w null) w null

-- `n` before the node `head`.
unfoldable pub link_front : Links → Ptr → Ptr → Links
link_front l head n =
    let l' = set_next (set_prev l n null) n head in if head == null then l' else set_prev l' head n

-- `n` behind the node `tail`.
unfoldable pub link_back : Links → Ptr → Ptr → Links
link_back l tail n =
    let l' = set_prev (set_next l n null) n tail in if tail == null then l' else set_next l' tail n
