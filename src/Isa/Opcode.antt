-- ===== src/Isa/Opcode.antt =====
-- src/blf4/isa/mod.rs: the opcodes.
use telda.Prelude.{ℕ}

abbrev pub null : ℕ
null = 0x00

abbrev pub halt : ℕ
halt = 0x0a

abbrev pub ctf : ℕ
ctf = 0x0b

abbrev pub syscall : ℕ
syscall = 0xc

abbrev pub reth : ℕ
reth = 0x0d

abbrev pub usr : ℕ
usr = 0x10

abbrev pub vmon : ℕ
vmon = 0x11

abbrev pub vmoff : ℕ
vmoff = 0x12

abbrev pub pstore : ℕ
pstore = 0x13

abbrev pub pload : ℕ
pload = 0x14

abbrev pub nop : ℕ
nop = 0x20

abbrev pub push_b : ℕ
push_b = 0x21

abbrev pub push_w : ℕ
push_w = 0x22

abbrev pub pop_b : ℕ
pop_b = 0x23

abbrev pub pop_w : ℕ
pop_w = 0x24

abbrev pub call : ℕ
call = 0x25

abbrev pub ret : ℕ
ret = 0x26

abbrev pub store_bi : ℕ
store_bi = 0x27

abbrev pub store_wi : ℕ
store_wi = 0x28

abbrev pub store_br : ℕ
store_br = 0x29

abbrev pub store_wr : ℕ
store_wr = 0x2a

abbrev pub load_bi : ℕ
load_bi = 0x2b

abbrev pub load_wi : ℕ
load_wi = 0x2c

abbrev pub load_br : ℕ
load_br = 0x2d

abbrev pub load_wr : ℕ
load_wr = 0x2e

abbrev pub jez : ℕ
jez = 0x2f

abbrev pub jlt : ℕ
jlt = 0x30

abbrev pub jle : ℕ
jle = 0x31

abbrev pub jgt : ℕ
jgt = 0x32

abbrev pub jge : ℕ
jge = 0x33

abbrev pub jnz : ℕ
jnz = 0x34

abbrev pub jo : ℕ
jo = 0x35

abbrev pub jno : ℕ
jno = 0x36

abbrev pub ja : ℕ
ja = 0x37

abbrev pub jae : ℕ
jae = 0x38

abbrev pub jb : ℕ
jb = 0x39

abbrev pub jbe : ℕ
jbe = 0x3a

abbrev pub ldi_b : ℕ
ldi_b = 0x3f

abbrev pub ldi_w : ℕ
ldi_w = 0x40

abbrev pub add_b : ℕ
add_b = 0x41

abbrev pub add_w : ℕ
add_w = 0x42

abbrev pub sub_b : ℕ
sub_b = 0x43

abbrev pub sub_w : ℕ
sub_w = 0x44

abbrev pub and_b : ℕ
and_b = 0x45

abbrev pub and_w : ℕ
and_w = 0x46

abbrev pub or_b : ℕ
or_b = 0x47

abbrev pub or_w : ℕ
or_w = 0x48

abbrev pub xor_b : ℕ
xor_b = 0x49

abbrev pub xor_w : ℕ
xor_w = 0x4a

abbrev pub shl_b : ℕ
shl_b = 0x4b

abbrev pub shl_w : ℕ
shl_w = 0x4c

abbrev pub asr_b : ℕ
asr_b = 0x4d

abbrev pub asr_w : ℕ
asr_w = 0x4e

abbrev pub lsr_b : ℕ
lsr_b = 0x4f

abbrev pub lsr_w : ℕ
lsr_w = 0x50

abbrev pub div_b : ℕ
div_b = 0x51

abbrev pub div_w : ℕ
div_w = 0x52

abbrev pub mul_b : ℕ
mul_b = 0x53

abbrev pub mul_w : ℕ
mul_w = 0x54
