-- ===== src/Machine/Idt/Gates.antt =====
-- The gates as the processor reads them.
use frod_os.Prelude.{
  ℕ, zero, suc, ◌+◌, ◌*◌, ◌/◌, ◌%◌, ◌^◌, ◌≤◌, ◌<◌, ◌≡◌, ◌≢◌, refl, ◌∙◌, arith, Bool, ◌||◌,
  Bool-cases, inl, inr, ◌==◌, if◌then◌else◌, List, length, length-set, get_or, get_or-set_self,
  get_or-set_ne,
}
use frod_os.Machine.Idt.{IdtEntry, idt_set_gate, Handlers, Interrupts, clear_gates, idt_install}

-- What is no entry.
abbrev pub no_gate : IdtEntry
no_gate = record { base_low = 0; sel = 0; always0 = 1; flags = 0; base_high = 0 }

abbrev cleared : IdtEntry
cleared = record { base_low = 0; sel = 0; always0 = 0; flags = 0; base_high = 0 }

abbrev made : ℕ → ℕ → ℕ → IdtEntry
made base sel flags = record {
  base_low = base % 2 ^ 16;
  sel = sel;
  always0 = 0;
  flags = flags;
  base_high = base / 2 ^ 16 % 2 ^ 16;
}

idt_set_gate_self :
    (num base sel flags : ℕ) (idt : List IdtEntry)
    → num < length idt
    → get_or (idt_set_gate num base sel flags idt) num no_gate ≡ made base sel flags
unfolding idt_set_gate
idt_set_gate_self num base sel flags idt h = get_or-set_self idt num _ no_gate h

idt_set_gate_ne :
    (num base sel flags i : ℕ) (idt : List IdtEntry)
    → num ≢ i
    → get_or (idt_set_gate num base sel flags idt) i no_gate ≡ get_or idt i no_gate
unfolding idt_set_gate
idt_set_gate_ne num base sel flags i idt h = get_or-set_ne idt num i _ no_gate h

length-idt_set_gate :
    (num base sel flags : ℕ) (idt : List IdtEntry)
    → length (idt_set_gate num base sel flags idt) ≡ length idt
unfolding idt_set_gate
length-idt_set_gate num base sel flags idt = length-set idt num _

length-clear_gates :
    (left i : ℕ) (idt : List IdtEntry) → length (clear_gates left i idt) ≡ length idt
unfolding clear_gates
length-clear_gates zero i idt = refl
length-clear_gates (suc left) i idt =
    length-clear_gates left (i + 1) _ ∙ length-idt_set_gate i 0 0 0 idt

-- A gate that is behind the loop keeps what it has.
clear_gates_keep :
    (left i v : ℕ) (idt : List IdtEntry)
    → v < i
    → get_or (clear_gates left i idt) v no_gate ≡ get_or idt v no_gate
unfolding clear_gates
clear_gates_keep zero i v idt h = refl
clear_gates_keep (suc left) i v idt h =
    clear_gates_keep left (i + 1) v _ (omega arith) ∙ idt_set_gate_ne i 0 0 0 v idt (ground arith)

clear_gates_lem :
    (left i v : ℕ) (idt : List IdtEntry)
    → i ≤ v
    → v < i + left
    → v < length idt
    → get_or (clear_gates left i idt) v no_gate ≡ cleared
unfolding clear_gates
clear_gates_lem zero i v idt h l k = absurd (omega arith)
clear_gates_lem (suc left) i v idt h l k = elim (Bool-cases (i == v)) [
  | inl here ↦
      let e : i ≡ v = ground arith in
      clear_gates_keep left (i + 1) v _ (omega (arith, e)) ∙ rw e (idt_set_gate_self v 0 0 0 idt k)
  | inr there ↦
      clear_gates_lem left (i + 1) v _ (ground arith) (omega arith)
        (omega (arith, length-idt_set_gate i 0 0 0 idt))
]

-- Setting a gate of a long enough table, at every index.
idt_set_gate_lem :
    (num base sel flags v : ℕ) (idt : List IdtEntry)
    → num < length idt
    → get_or (idt_set_gate num base sel flags idt) v no_gate
      ≡ (if num == v then made base sel flags else get_or idt v no_gate)
idt_set_gate_lem num base sel flags v idt h = elim (Bool-cases (num == v)) [
  | inl here ↦
      let e : num ≡ v = ground arith in rw (here, ← e) (idt_set_gate_self num base sel flags idt h)
  | inr there ↦ rw there (idt_set_gate_ne num base sel flags v idt (ground arith))
]

abbrev pub handler_for : Handlers → ℕ → ℕ
handler_for handlers v =
    if 0x80 == v
    then handlers.syscall_asm_handler
    else if 33 == v
    then handlers.irq1_handler
    else if 32 == v
    then handlers.irq0_handler
    else if 13 == v
    then handlers.exception13_handler
    else 0

abbrev pub is_gate : ℕ → Bool
is_gate v = 0x80 == v || (33 == v || (32 == v || 13 == v))

-- The address of a handler, whether the gate is there, and whether programs in ring 3 may call it.
abbrev pub address_of : IdtEntry → ℕ
address_of e = e.base_low + 2 ^ 16 * e.base_high

abbrev pub is_set : IdtEntry → Bool
is_set e = e.flags / 128 % 2 == 1

abbrev pub is_open : IdtEntry → Bool
is_open e = e.flags / 32 % 4 == 3

-- The gates that are set, one before the other.
abbrev chosen : Handlers → ℕ → IdtEntry
chosen handlers v =
    if 0x80 == v
    then made handlers.syscall_asm_handler 0x08 0xee
    else if 33 == v
    then made handlers.irq1_handler 0x08 0x8e
    else if 32 == v
    then made handlers.irq0_handler 0x08 0x8e
    else if 13 == v
    then made handlers.exception13_handler 0x08 0x8e
    else cleared

chosen_lem :
    (handlers : Handlers) (v : ℕ)
    → ((n : ℕ) → handler_for handlers n < 2 ^ 32)
    → (address_of (chosen handlers v) ≡ handler_for handlers v)
      × (is_set (chosen handlers v) ≡ is_gate v)
      × (is_open (chosen handlers v) ≡ (0x80 == v))
chosen_lem handlers v w = elim (Bool-cases (0x80 == v)) [
  | inl is_call ↦ rw is_call (omega (arith, w 0x80), refl, refl)
  | inr no_call ↦ elim (Bool-cases (33 == v)) [
    | inl is_key ↦ rw (no_call, is_key) (omega (arith, w 33), refl, refl)
    | inr no_key ↦ elim (Bool-cases (32 == v)) [
      | inl is_tick ↦ rw (no_call, no_key, is_tick) (omega (arith, w 32), refl, refl)
      | inr no_tick ↦ elim (Bool-cases (13 == v)) [
        | inl is_fault ↦ rw (no_call, no_key, no_tick, is_fault) (omega (arith, w 13), refl, refl)
        | inr no_fault ↦ rw (no_call, no_key, no_tick, no_fault) (refl, refl, refl)
      ]
    ]
  ]
]

-- Whatever a table of 256 entries held, with handlers at addresses of 32 bits: after `idt_install`
-- each of the 256 vectors has the address of its handler, only the four vectors of the fault, the
-- timer, the keyboard and the system call are there, and only the last one is open to ring 3.
pub idt_install_lem :
    (handlers : Handlers) (idt_addr v : ℕ) (s : Interrupts)
    → length s.idt ≡ 256
    → v < 256
    → ((n : ℕ) → handler_for handlers n < 2 ^ 32)
    → (address_of (get_or (idt_install handlers idt_addr s).idt v no_gate) ≡ handler_for handlers v)
      × (is_set (get_or (idt_install handlers idt_addr s).idt v no_gate) ≡ is_gate v)
      × (is_open (get_or (idt_install handlers idt_addr s).idt v no_gate) ≡ (0x80 == v))
unfolding idt_install
idt_install_lem handlers idt_addr v s h l w =
    let t0 = clear_gates 256 0 s.idt in
    let t1 = idt_set_gate 13 handlers.exception13_handler 0x08 0x8e t0 in
    let t2 = idt_set_gate 32 handlers.irq0_handler 0x08 0x8e t1 in
    let t3 = idt_set_gate 33 handlers.irq1_handler 0x08 0x8e t2 in
    let n0 : length t0 ≡ 256 = length-clear_gates 256 0 s.idt ∙ h in
    let n1 : length t1 ≡ 256 =
      length-idt_set_gate 13 handlers.exception13_handler 0x08 0x8e t0 ∙ n0 in
    let n2 : length t2 ≡ 256 = length-idt_set_gate 32 handlers.irq0_handler 0x08 0x8e t1 ∙ n1 in
    let n3 : length t3 ≡ 256 = length-idt_set_gate 33 handlers.irq1_handler 0x08 0x8e t2 ∙ n2 in
    rw
      (
        idt_set_gate_lem 0x80 handlers.syscall_asm_handler 0x08 0xee v t3 (omega (arith, n3)),
        idt_set_gate_lem 33 handlers.irq1_handler 0x08 0x8e v t2 (omega (arith, n2)),
        idt_set_gate_lem 32 handlers.irq0_handler 0x08 0x8e v t1 (omega (arith, n1)),
        idt_set_gate_lem 13 handlers.exception13_handler 0x08 0x8e v t0 (omega (arith, n0)),
        clear_gates_lem 256 0 v s.idt (omega arith) (omega arith) (omega (arith, h)),
      )
      (chosen_lem handlers v w)
