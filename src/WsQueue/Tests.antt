-- ===== src/WsQueue/Tests.antt =====
-- The queue of papago.c with one message, and empty.
use libpapago.Prelude.{
  All, ◌≢◌, ℕ, ◌≡◌, ◌⊎◌, refl, false, List, [], ◌∷◌, none, some, arith, ◌==◌, if◌then◌else◌,
}
use libpapago.Prelude.Text.{codes}
use libpapago.Kv.{success, failure}
use libpapago.WsQueue.{Msg, Heap, Queue, push, pop}
use libpapago.WsQueue.Represents.{Represents, payload}
use libpapago.WsQueue.Laws.{IsNew, HasRoom, push_refines, pop_refines}

abbrev hello : Msg
hello = record { bytes = codes "hello"; len = 5; binary = false; next = none }

abbrev heap : Heap
heap a = if a == 1 then some hello else if a == 2 then some hello else none

abbrev one : Queue
one = record { send_head = some 1; send_tail = some 1; queue_msg_count = 1; queue_byte_count = 5 }

one-Represents : Represents one heap (1 ∷ [])
one-Represents = record {
  linked = (refl, (hello, refl, refl));
  ends = refl;
  distinct = (tt, tt);
  count = refl;
  bytes = refl;
  count_bound = omega arith;
  bytes_bound = omega arith;
}

two-IsNew : IsNew heap (1 ∷ []) 2 hello
two-IsNew = record {
  allocated = refl;
  alone = refl;
  not_queued = (λ e. absurd (omega (arith, e)), tt);
  small = omega arith;
}

push_refines_example :
    ((q' : Queue) × (heap' : Heap) × (push one heap 2 ≡ some (success, q', heap'))
      × HasRoom heap (1 ∷ []) 5
      × Represents q' heap' (1 ∷ 2 ∷ [])
      × ((a : ℕ) → payload heap' a ≡ payload heap a)
      × ((a : ℕ) → All (λ b. a ≢ b) (1 ∷ []) → heap' a ≡ heap a))
    ⊎ ((push one heap 2 ≡ some (failure, one, heap)) × (¬ HasRoom heap (1 ∷ []) 5))
push_refines_example = push_refines one heap (1 ∷ []) 2 hello one-Represents two-IsNew

abbrev one_address : List ℕ
one_address = 1 ∷ []

pop_refines_example :
    ((one_address ≡ []) × (pop one heap ≡ some (none, one)))
    ⊎ ((p : ℕ) × (rest : List ℕ) × (q' : Queue) × (one_address ≡ p ∷ rest)
        × (pop one heap ≡ some (some p, q'))
        × Represents q' heap rest)
pop_refines_example = pop_refines one heap (one_address) one-Represents
