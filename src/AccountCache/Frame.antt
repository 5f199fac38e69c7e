-- ===== src/AccountCache/Frame.antt =====
-- What moving an entry of the cache does not touch: the index, the number of entries, and in each
-- entry what `Get` reads.
use theo_extension.Common.{
  ℕ, zero, suc, ◌≡◌, refl, ap, ◌∙◌, Bool, Option, none, some, List, [], ◌∷◌, length, take,
  Bool-cases, inl, inr,
}
use theo_extension.Common.Bytes.{Bytes, bytes_eq}
use theo_extension.AccountCache.{
  AccountHashToKeyCacheEntry, AccountHashToKeyCache, Change, entry_of, change_entry, at, update_at,
  set_prev, set_next, link_prev, link_next, detach, link_head, attach_front, is_at, move_to_front,
}

-- What `Get` reads of an entry.
pub record Content : Type 0 where
  pub bytes : Bytes
  pub used : Bool

abbrev pub content : AccountHashToKeyCacheEntry → Content
content e = record { bytes = take e.key_len e.key; used = e.in_use }

abbrev pub contents : AccountHashToKeyCache → ℕ → Content
contents c i = content (at c i)

-- A change that keeps the contents.
abbrev IsLink : Change → Type 0
IsLink f = (e : AccountHashToKeyCacheEntry) → content (f e) ≡ content e

change-content :
    (f : Change) (es : List AccountHashToKeyCacheEntry) (i j : ℕ)
    → IsLink f
    → content (entry_of (change_entry f es i) j) ≡ content (entry_of es j)
unfolding entry_of change_entry
change-content f [] i j h = refl
change-content f (e ∷ es) zero zero h = h e
change-content f (e ∷ es) zero (suc j) h = refl
change-content f (e ∷ es) (suc i) zero h = refl
change-content f (e ∷ es) (suc i) (suc j) h = change-content f es i j h

link_prev-contents :
    (p n : Option ℕ) (c : AccountHashToKeyCache) (j : ℕ)
    → contents (link_prev p n c) j ≡ contents c j
unfolding link_prev
link_prev-contents none n c j = refl
link_prev-contents (some p) n c j = change-content (set_next n) c.entries p j (λ e. refl)

link_next-contents :
    (n p : Option ℕ) (c : AccountHashToKeyCache) (j : ℕ)
    → contents (link_next n p c) j ≡ contents c j
unfolding link_next
link_next-contents none p c j = refl
link_next-contents (some n) p c j = change-content (set_prev p) c.entries n j (λ e. refl)

detach-contents :
    (i : ℕ) (c : AccountHashToKeyCache) (j : ℕ) → contents (detach i c) j ≡ contents c j
unfolding detach
detach-contents i c j =
    change-content _ _ i j (λ e. refl) ∙ link_next-contents _ _ _ j ∙ link_prev-contents _ _ c j

link_head-contents :
    (h : Option ℕ) (i : ℕ) (c : AccountHashToKeyCache) (j : ℕ)
    → contents (link_head h i c) j ≡ contents c j
unfolding link_head
link_head-contents none i c j = refl
link_head-contents (some h) i c j = change-content _ c.entries h j (λ e. refl)

pub attach_front-contents :
    (i : ℕ) (c : AccountHashToKeyCache) (j : ℕ) → contents (attach_front i c) j ≡ contents c j
unfolding attach_front
attach_front-contents i c j =
    link_head-contents c.head i _ j ∙ change-content _ c.entries i j (λ e. refl)

pub move_to_front-contents :
    (i : ℕ) (c : AccountHashToKeyCache) (j : ℕ) → contents (move_to_front i c) j ≡ contents c j
unfolding move_to_front
move_to_front-contents i c j = elim (Bool-cases (is_at i c.head)) [
  | inl e ↦ rw e refl
  | inr e ↦ rw e (attach_front-contents i (detach i c) j ∙ detach-contents i c j)
]

-- The moves do not touch the index, nor the number of entries.
pub record IsSame (c d : AccountHashToKeyCache) : Type 0 where
  pub same_cap : c.cap ≡ d.cap
  pub same_index : c.index ≡ d.index
  pub same_length : length c.entries ≡ length d.entries

IsSame-refl : (c : AccountHashToKeyCache) → IsSame c c
IsSame-refl c = record { same_cap = refl; same_index = refl; same_length = refl }

IsSame-trans : {c d e : AccountHashToKeyCache} → IsSame c d → IsSame d e → IsSame c e
IsSame-trans a b = record {
  same_cap = a.same_cap ∙ b.same_cap;
  same_index = a.same_index ∙ b.same_index;
  same_length = a.same_length ∙ b.same_length;
}

length-change_entry :
    (f : Change) (es : List AccountHashToKeyCacheEntry) (i : ℕ)
    → length (change_entry f es i) ≡ length es
unfolding change_entry
length-change_entry f [] i = refl
length-change_entry f (e ∷ es) zero = refl
length-change_entry f (e ∷ es) (suc i) = ap suc (length-change_entry f es i)

pub update_at-IsSame : (i : ℕ) (f : Change) (c : AccountHashToKeyCache) → IsSame (update_at i f c) c
update_at-IsSame i f c = record {
  same_cap = refl;
  same_index = refl;
  same_length = length-change_entry f c.entries i;
}

link_prev-IsSame : (p n : Option ℕ) (c : AccountHashToKeyCache) → IsSame (link_prev p n c) c
unfolding link_prev
link_prev-IsSame none n c = record { same_cap = refl; same_index = refl; same_length = refl }
link_prev-IsSame (some p) n c = update_at-IsSame p (set_next n) c

link_next-IsSame : (n p : Option ℕ) (c : AccountHashToKeyCache) → IsSame (link_next n p c) c
unfolding link_next
link_next-IsSame none p c = record { same_cap = refl; same_index = refl; same_length = refl }
link_next-IsSame (some n) p c = update_at-IsSame n (set_prev p) c

pub detach-IsSame : (i : ℕ) (c : AccountHashToKeyCache) → IsSame (detach i c) c
unfolding detach
detach-IsSame i c = IsSame-trans (update_at-IsSame i _ _) (
    IsSame-trans (link_next-IsSame (at c i).next (at c i).prev _)
      (link_prev-IsSame (at c i).prev (at c i).next c))

link_head-IsSame : (h : Option ℕ) (i : ℕ) (c : AccountHashToKeyCache) → IsSame (link_head h i c) c
unfolding link_head
link_head-IsSame none i c = record { same_cap = refl; same_index = refl; same_length = refl }
link_head-IsSame (some h) i c = update_at-IsSame h (set_prev (some i)) c

pub attach_front-IsSame : (i : ℕ) (c : AccountHashToKeyCache) → IsSame (attach_front i c) c
unfolding attach_front
attach_front-IsSame i c =
    let a =
      link_head-IsSame c.head i (update_at i (λ e. record e { prev = none; next = c.head }) c) in
    let b = update_at-IsSame i (λ e. record e { prev = none; next = c.head }) c in
    record {
      same_cap = a.same_cap ∙ b.same_cap;
      same_index = a.same_index ∙ b.same_index;
      same_length = a.same_length ∙ b.same_length;
    }

pub move_to_front-IsSame : (i : ℕ) (c : AccountHashToKeyCache) → IsSame (move_to_front i c) c
unfolding move_to_front
move_to_front-IsSame i c = elim (Bool-cases (is_at i c.head)) [
  | inl e ↦ rw e (IsSame-refl c)
  | inr e ↦ rw e (IsSame-trans (attach_front-IsSame i (detach i c)) (detach-IsSame i c))
]
