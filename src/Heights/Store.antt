-- ===== src/Heights/Store.antt =====
-- Writes to shared health records: what a read gives after them.
use caddy_blockchain_health.Common.{
  zero, suc, ◌<◌, ◌≡◌, refl, arith, Bool, true, false, ◌||◌, List, [], ◌∷◌, Option, none, some,
  ◌==◌, ==_iff, length, get_elem?, if◌then◌else◌, Bool-cases, Option-cases, inl, inr, ap, ◌∙◌,
  length-set, get_elem?-set_self, get_elem?-set_ne,
}
use caddy_blockchain_health.Types.{NodeHealth, Heap, Ref}
use caddy_blockchain_health.Heights.{modify, modify_all}

abbrev pub member : Ref → List Ref → Bool
member ref [] = false
member ref (r ∷ refs) = r == ref || member ref refs

abbrev pub update : (NodeHealth → NodeHealth) → Option NodeHealth → Option NodeHealth
update f none = none
update f (some health) = some (f health)

get-lt :
    (heap : Heap) (ref : Ref) {health : NodeHealth}
    → get_elem? heap ref ≡ some health
    → ref < length heap
get-lt [] ref e = absurd (cc e)
get-lt (x ∷ heap) zero e = omega arith
get-lt (x ∷ heap) (suc ref) e = omega (arith, get-lt heap ref e)

pub length-modify :
    (f : NodeHealth → NodeHealth) (ref : Ref) (heap : Heap)
    → length (modify f ref heap) ≡ length heap
unfolding modify
length-modify f ref heap = elim (Option-cases (get_elem? heap ref)) [
  | inl e ↦ rw (e, modify)
  | inr (health, e) ↦ rw (e, modify) (length-set heap ref (f health))
]

pub get-modify :
    (f : NodeHealth → NodeHealth) (ref r : Ref) (heap : Heap)
    → get_elem? (modify f ref heap) r
      ≡ (if ref == r then update f (get_elem? heap r) else get_elem? heap r)
unfolding modify
get-modify f ref r heap = elim (Option-cases (get_elem? heap ref)) [
  | inl e ↦ rw (e, modify) (ground (arith, ap (get_elem? heap) {x = ref} {y = r}))
  | inr (health, e) ↦
      rw (e, modify)
        (elim (Bool-cases (ref == r)) [
          | inl same ↦ ground (
            arith,
            (==_iff ref r).0 same,
            get_elem?-set_self heap ref (f health) (get-lt heap ref e),
          )
          | inr other ↦
              ground
                (arith, get_elem?-set_ne heap (f health) (λ (p : ref ≡ r). absurd (ground arith)))
        ])
]

pub length-modify_all :
    (f : NodeHealth → NodeHealth) (refs : List Ref) (heap : Heap)
    → length (modify_all f refs heap) ≡ length heap
unfolding modify_all
length-modify_all f [] heap = refl
length-modify_all f (ref ∷ refs) heap =
    length-modify_all f refs (modify f ref heap) ∙ length-modify f ref heap

-- A write that changes nothing when made again, through a list of references in which some may be
-- equal: a record is written exactly if one of them is its own.
pub get-modify_all :
    (f : NodeHealth → NodeHealth) (refs : List Ref) (r : Ref) (heap : Heap)
    → ((h : NodeHealth) → f (f h) ≡ f h)
    → get_elem? (modify_all f refs heap) r
      ≡ (if member r refs then update f (get_elem? heap r) else get_elem? heap r)
unfolding modify_all
get-modify_all f [] r heap idem = refl
get-modify_all f (ref ∷ refs) r heap idem =
    rw (get-modify_all f refs r (modify f ref heap) idem, get-modify f ref r heap)
      (once (ref == r) (member r refs) (get_elem? heap r))
  where
    once :
        (a b : Bool) (o : Option NodeHealth)
        → (if b then update f (if a then update f o else o) else (if a then update f o else o))
          ≡ (if a || b then update f o else o)
    once true true none = refl
    once true true (some h) = rw (idem h)
    once true false o = refl
    once false b o = refl
