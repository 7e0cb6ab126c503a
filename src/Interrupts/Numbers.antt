-- ===== src/Interrupts/Numbers.antt =====
-- arch/x86_64/src/cpu_impl.cpp: the numbers of the interrupt vectors.
use oronyx.Base.{ℕ}

abbrev pub exception_de : ℕ
exception_de = 0

abbrev pub exception_db : ℕ
exception_db = 1

abbrev pub exception_nmi : ℕ
exception_nmi = 2

abbrev pub exception_bp : ℕ
exception_bp = 3

abbrev pub exception_of : ℕ
exception_of = 4

abbrev pub exception_br : ℕ
exception_br = 5

abbrev pub exception_ud : ℕ
exception_ud = 6

abbrev pub exception_nm : ℕ
exception_nm = 7

abbrev pub exception_df : ℕ
exception_df = 8

abbrev pub exception_cso : ℕ
exception_cso = 9

abbrev pub exception_ts : ℕ
exception_ts = 10

abbrev pub exception_np : ℕ
exception_np = 11

abbrev pub exception_ss : ℕ
exception_ss = 12

abbrev pub exception_gp : ℕ
exception_gp = 13

abbrev pub exception_pf : ℕ
exception_pf = 14

abbrev pub exception_mf : ℕ
exception_mf = 16

abbrev pub exception_ac : ℕ
exception_ac = 17

abbrev pub exception_mc : ℕ
exception_mc = 18

abbrev pub exception_xm : ℕ
exception_xm = 19

abbrev pub exception_ve : ℕ
exception_ve = 20

abbrev pub irq_timer : ℕ
irq_timer = 32

abbrev pub irq_keyboard : ℕ
irq_keyboard = 33

abbrev pub irq_cascade : ℕ
irq_cascade = 34

abbrev pub irq_com2 : ℕ
irq_com2 = 35

abbrev pub irq_com1 : ℕ
irq_com1 = 36

abbrev pub irq_lpt2 : ℕ
irq_lpt2 = 37

abbrev pub irq_floppy : ℕ
irq_floppy = 38

abbrev pub irq_lpt1 : ℕ
irq_lpt1 = 39

abbrev pub irq_rtc : ℕ
irq_rtc = 40

abbrev pub irq_9 : ℕ
irq_9 = 41

abbrev pub irq_10 : ℕ
irq_10 = 42

abbrev pub irq_11 : ℕ
irq_11 = 43

abbrev pub irq_mouse : ℕ
irq_mouse = 44

abbrev pub irq_fpu : ℕ
irq_fpu = 45

abbrev pub irq_ata1 : ℕ
irq_ata1 = 46

abbrev pub irq_ata2 : ℕ
irq_ata2 = 47

abbrev pub irq_thermal : ℕ
irq_thermal = 0x80

abbrev pub irq_perfmon : ℕ
irq_perfmon = 0x81

abbrev pub irq_lint0 : ℕ
irq_lint0 = 0x82

abbrev pub irq_lint1 : ℕ
irq_lint1 = 0x83

abbrev pub irq_error : ℕ
irq_error = 0x84
