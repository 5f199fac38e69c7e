-- ===== src/AccountCache/Range.antt =====
-- The cache points only to entries that it has: the methods keep this so.
use theo_extension.Common.{
  ℕ, zero, suc, ◌<◌, ◌≡◌, refl, sym, ◌∙◌, subst, Option, none, some, List, [], ◌∷◌, length,
  Bool-cases, inl, inr,
}
use theo_extension.Common.Bytes.{Bytes, bytes_beq, bytes_eq}
use theo_extension.Common.Maps.{lookup, insert, erase, lookup-insert, lookup-erase}
use theo_extension.AccountCache.{
  AccountHashToKeyCacheEntry, AccountHashToKeyCache, Change, entry_of, change_entry, at, update_at,
  set_prev, set_next, link_prev, link_next, detach, link_head, attach_front, is_at, move_to_front,
  fill_entry, reuse_entry,
}
use theo_extension.AccountCache.Frame.{
  IsSame, update_at-IsSame, detach-IsSame, move_to_front-IsSame,
}

abbrev pub IsBelow : ℕ → Option ℕ → Type 0
IsBelow n none = Unit
IsBelow n (some i) = i < n

abbrev pub HasLinks : ℕ → AccountHashToKeyCacheEntry → Type 0
HasLinks n e = IsBelow n e.prev × IsBelow n e.next

pub record IsLinked (n : ℕ) (c : AccountHashToKeyCache) : Type 0 where
  pub first : IsBelow n c.head
  pub last : IsBelow n c.tail
  pub links : (j : ℕ) → HasLinks n (at c j)

change-links :
    (n : ℕ) (f : Change) (es : List AccountHashToKeyCacheEntry) (i : ℕ)
    → ((e : AccountHashToKeyCacheEntry) → HasLinks n e → HasLinks n (f e))
    → ((j : ℕ) → HasLinks n (entry_of es j))
    → (j : ℕ) → HasLinks n (entry_of (change_entry f es i) j)
unfolding entry_of change_entry
change-links n f [] i p h j = h j
change-links n f (e ∷ es) zero p h zero = p e (h zero)
change-links n f (e ∷ es) zero p h (suc j) = h (suc j)
change-links n f (e ∷ es) (suc i) p h zero = h zero
change-links n f (e ∷ es) (suc i) p h (suc j) = change-links n f es i p (λ k. h (suc k)) j

update_at-IsLinked :
    (n i : ℕ) (f : Change) (c : AccountHashToKeyCache)
    → ((e : AccountHashToKeyCacheEntry) → HasLinks n e → HasLinks n (f e))
    → IsLinked n c
    → IsLinked n (update_at i f c)
update_at-IsLinked n i f c p l = record {
  first = l.first;
  last = l.last;
  links = change-links n f c.entries i p l.links;
}

link_prev-IsLinked :
    (n : ℕ) (p q : Option ℕ) (c : AccountHashToKeyCache)
    → IsBelow n q
    → IsLinked n c
    → IsLinked n (link_prev p q c)
unfolding link_prev
link_prev-IsLinked n none q c h l = record { first = h; last = l.last; links = l.links }
link_prev-IsLinked n (some p) q c h l = update_at-IsLinked n p (set_next q) c (λ e k. (k.0, h)) l

link_next-IsLinked :
    (n : ℕ) (q p : Option ℕ) (c : AccountHashToKeyCache)
    → IsBelow n p
    → IsLinked n c
    → IsLinked n (link_next q p c)
unfolding link_next
link_next-IsLinked n none p c h l = record { first = l.first; last = h; links = l.links }
link_next-IsLinked n (some q) p c h l = update_at-IsLinked n q (set_prev p) c (λ e k. (h, k.1)) l

detach-IsLinked : (n i : ℕ) (c : AccountHashToKeyCache) → IsLinked n c → IsLinked n (detach i c)
unfolding detach
detach-IsLinked n i c l =
    let p = (at c i).prev in
    let q = (at c i).next in
    update_at-IsLinked n i (λ e. record e { prev = none; next = none })
      (link_next q p (link_prev p q c)) (λ e k. (tt, tt))
      (link_next-IsLinked n q p (link_prev p q c) (l.links i).0
        (link_prev-IsLinked n p q c (l.links i).1 l))

link_head-IsLinked :
    (n : ℕ) (h : Option ℕ) (i : ℕ) (c : AccountHashToKeyCache)
    → i < n
    → IsLinked n c
    → IsLinked n (link_head h i c)
unfolding link_head
link_head-IsLinked n none i c k l = record { first = l.first; last = k; links = l.links }
link_head-IsLinked n (some h) i c k l =
    update_at-IsLinked n h (set_prev (some i)) c (λ e m. (k, m.1)) l

pub attach_front-IsLinked :
    (n i : ℕ) (c : AccountHashToKeyCache) → i < n → IsLinked n c → IsLinked n (attach_front i c)
unfolding attach_front
attach_front-IsLinked n i c k l =
    let a =
      update_at-IsLinked n i (λ e. record e { prev = none; next = c.head }) c (λ e m. (tt, l.first))
        l in
    let b =
      link_head-IsLinked n c.head i (update_at i (λ e. record e { prev = none; next = c.head }) c) k
        a in
    record { first = k; last = b.last; links = b.links }

move_to_front-IsLinked :
    (n i : ℕ) (c : AccountHashToKeyCache) → i < n → IsLinked n c → IsLinked n (move_to_front i c)
unfolding move_to_front
move_to_front-IsLinked n i c k l = elim (Bool-cases (is_at i c.head)) [
  | inl e ↦ rw e l
  | inr e ↦ rw e (attach_front-IsLinked n i (detach i c) k (detach-IsLinked n i c l))
]

-- A cache of the size of its array, that points only to entries in it.
pub record IsInRange (c : AccountHashToKeyCache) : Type 0 where
  pub full : length c.entries ≡ c.cap
  pub positive : 0 < c.cap
  pub linked : IsLinked c.cap c
  pub mapped : (hash : Bytes) → IsBelow c.cap (lookup hash c.index)

pub moved-IsInRange :
    {c d : AccountHashToKeyCache} → IsSame d c → IsLinked c.cap d → IsInRange c → IsInRange d
moved-IsInRange {c} {d} s l r = record {
  full = s.same_length ∙ r.full ∙ sym s.same_cap;
  positive = subst (λ n. 0 < n) (sym s.same_cap) r.positive;
  linked = subst (λ n. IsLinked n d) (sym s.same_cap) l;
  mapped = λ h.
      subst (λ n. IsBelow n (lookup h d.index)) (sym s.same_cap)
        (subst (λ m. IsBelow c.cap (lookup h m)) (sym s.same_index) (r.mapped h));
}

pub move_to_front-IsInRange :
    (i : ℕ) (c : AccountHashToKeyCache) → i < c.cap → IsInRange c → IsInRange (move_to_front i c)
move_to_front-IsInRange i c k r =
    moved-IsInRange (move_to_front-IsSame i c) (move_to_front-IsLinked c.cap i c k r.linked) r

pub fill-IsInRange :
    (i : ℕ) (hash key : Bytes) (c : AccountHashToKeyCache)
    → IsInRange c
    → IsInRange (update_at i (fill_entry hash key) c)
fill-IsInRange i hash key c r =
    moved-IsInRange (update_at-IsSame i (fill_entry hash key) c)
      (update_at-IsLinked c.cap i (fill_entry hash key) c (λ e k. k) r.linked) r

pub erase-IsInRange :
    (hash : Bytes) (c : AccountHashToKeyCache)
    → IsInRange c
    → IsInRange (record c { index = erase hash c.index })
erase-IsInRange hash c r = record {
  full = r.full;
  positive = r.positive;
  linked = record { first = r.linked.first; last = r.linked.last; links = r.linked.links };
  mapped = λ h.
      subst (IsBelow c.cap) (sym (lookup-erase hash h c.index))
        (elim (Bool-cases (bytes_beq hash h)) [ inl e ↦ rw e tt | inr e ↦ rw e (r.mapped h) ]);
}

pub insert-IsInRange :
    (hash : Bytes) (i : ℕ) (c : AccountHashToKeyCache)
    → i < c.cap
    → IsInRange c
    → IsInRange (record c { index = insert hash i c.index })
insert-IsInRange hash i c k r = record {
  full = r.full;
  positive = r.positive;
  linked = record { first = r.linked.first; last = r.linked.last; links = r.linked.links };
  mapped = λ h.
      subst (IsBelow c.cap) (sym (lookup-insert hash h i c.index))
        (elim (Bool-cases (bytes_beq hash h)) [ inl e ↦ rw e k | inr e ↦ rw e (r.mapped h) ]);
}

pub reuse_entry-IsInRange :
    (i : ℕ) (c : AccountHashToKeyCache) → IsInRange c → IsInRange (reuse_entry i c)
unfolding reuse_entry
reuse_entry-IsInRange i c r = elim (Bool-cases (at c i).in_use) [
  | inl e ↦
      let d = record c { index = erase (at c i).hash c.index } in
      let q = erase-IsInRange (at c i).hash c r in
      rw e (moved-IsInRange (detach-IsSame i d) (detach-IsLinked d.cap i d q.linked) q)
  | inr e ↦ rw e r
]

pub reuse_entry-cap : (i : ℕ) (c : AccountHashToKeyCache) → (reuse_entry i c).cap ≡ c.cap
unfolding reuse_entry
reuse_entry-cap i c = elim (Bool-cases (at c i).in_use) [
  | inl e ↦ rw e (detach-IsSame i (record c { index = erase (at c i).hash c.index })).same_cap
  | inr e ↦ rw e refl
]
