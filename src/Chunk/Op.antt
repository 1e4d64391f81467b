-- ===== src/Chunk/Op.antt =====
-- src/chunk/uopcodes.def: the opcodes, numbered by their rows (`UOpcode` of src/chunk/uchunk.h).
use urbi_embedded.Shared.{ℕ}

abbrev pub loadk : ℕ
loadk = 0

abbrev pub move : ℕ
move = 1

abbrev pub add : ℕ
add = 2

abbrev pub sub : ℕ
sub = 3

abbrev pub mul : ℕ
mul = 4

abbrev pub div : ℕ
div = 5

abbrev pub neg : ℕ
neg = 6

abbrev pub ret : ℕ
ret = 7

abbrev pub loadnil : ℕ
loadnil = 8

abbrev pub loadbool : ℕ
loadbool = 9

abbrev pub loadvoid : ℕ
loadvoid = 10

abbrev pub getupval : ℕ
getupval = 11

abbrev pub setupval : ℕ
setupval = 12

abbrev pub closure : ℕ
closure = 13

abbrev pub close : ℕ
close = 14

abbrev pub call : ℕ
call = 15

abbrev pub jmp : ℕ
jmp = 16

abbrev pub test : ℕ
test = 17

abbrev pub testset : ℕ
testset = 18

abbrev pub eq : ℕ
eq = 19

abbrev pub lt : ℕ
lt = 20

abbrev pub le : ℕ
le = 21

abbrev pub yield : ℕ
yield = 22

abbrev pub fork : ℕ
fork = 23

abbrev pub join_wait : ℕ
join_wait = 24

abbrev pub getslot : ℕ
getslot = 25

abbrev pub setslot : ℕ
setslot = 26

abbrev pub setslot_update : ℕ
setslot_update = 27

abbrev pub self : ℕ
self = 28

abbrev pub getslot_change_event : ℕ
getslot_change_event = 29

abbrev pub extarg : ℕ
extarg = 30

abbrev pub throw : ℕ
throw = 31

abbrev pub scope_try : ℕ
scope_try = 32

abbrev pub scope_tag : ℕ
scope_tag = 33

abbrev pub scope_pop : ℕ
scope_pop = 34

abbrev pub unwind_to : ℕ
unwind_to = 35

abbrev pub resume : ℕ
resume = 36

abbrev pub load_catch_value : ℕ
load_catch_value = 37

abbrev pub install : ℕ
install = 38

abbrev pub load_realm_global : ℕ
load_realm_global = 39

abbrev pub load_recv : ℕ
load_recv = 40

-- `OP_MAX`
abbrev pub op_max : ℕ
op_max = 41
