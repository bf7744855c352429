-- ===== src/Cpu/Ejecucion/Rangos.antt =====
-- The ranges of the registers and of the program counter, and what keeps them.
use recursos_so.Prelude.{ℕ, ◌+◌, ◌%◌, ◌^◌, ◌<◌, ◌≡◌, List, [], ◌∷◌, some, arith, length, All}
use recursos_so.Modelo.{
  RegId, reg_ax, reg_bx, reg_cx, reg_dx, reg_eax, reg_ebx, reg_ecx, reg_edx, reg_si, reg_di,
  Registros, ContextoCpu, IsRegistros,
}
use recursos_so.Cpu.Registros.{
  registros_leer, registros_escribir, registros_size, avanzar, con_registro,
}
use recursos_so.Cpu.Ejecucion.{Servicio}
use recursos_so.Utils.Paquete.{de_bytes}

-- The ranges of the fields of a context.
pub record IsContexto (ctx : ContextoCpu) : Type 0 where
  pub pc : ctx.pc < 2 ^ 32
  pub registros : IsRegistros ctx.registros

-- The memory answers a read with bytes.
abbrev pub DaBytes : {S : Type 0} → Servicio S → Type 0
DaBytes {S} servicio =
    (pid dir size : ℕ) (s : S) (datos : List ℕ)
    → (servicio.lectura pid dir size s).0 ≡ some datos
    → All (λ b. b < 256) datos

-- The value of up to four bytes is a uint32_t.
pub de_bytes-IsU32 :
    (datos : List ℕ) → All (λ b. b < 256) datos → length datos < 5 → de_bytes datos < 2 ^ 32
unfolding de_bytes
de_bytes-IsU32 [] a l = omega arith
de_bytes-IsU32 (b0 ∷ []) (h0, _) l = omega arith
de_bytes-IsU32 (b0 ∷ b1 ∷ []) (h0, (h1, _)) l = omega arith
de_bytes-IsU32 (b0 ∷ b1 ∷ b2 ∷ []) (h0, (h1, (h2, _))) l = omega arith
de_bytes-IsU32 (b0 ∷ b1 ∷ b2 ∷ b3 ∷ []) (h0, (h1, (h2, (h3, _)))) l = omega arith
de_bytes-IsU32 (b0 ∷ b1 ∷ b2 ∷ b3 ∷ b4 ∷ datos) a l = absurd (omega arith)

registros_escribir-IsRegistros :
    (r : Registros) (reg : RegId) (v : ℕ)
    → IsRegistros r
    → v < 2 ^ 32
    → IsRegistros (registros_escribir r reg v)
unfolding registros_escribir
registros_escribir-IsRegistros r reg_ax v h l = record {
  ax = omega arith;
  bx = h.bx;
  cx = h.cx;
  dx = h.dx;
  eax = h.eax;
  ebx = h.ebx;
  ecx = h.ecx;
  edx = h.edx;
  si = h.si;
  di = h.di;
}
registros_escribir-IsRegistros r reg_bx v h l = record {
  ax = h.ax;
  bx = omega arith;
  cx = h.cx;
  dx = h.dx;
  eax = h.eax;
  ebx = h.ebx;
  ecx = h.ecx;
  edx = h.edx;
  si = h.si;
  di = h.di;
}
registros_escribir-IsRegistros r reg_cx v h l = record {
  ax = h.ax;
  bx = h.bx;
  cx = omega arith;
  dx = h.dx;
  eax = h.eax;
  ebx = h.ebx;
  ecx = h.ecx;
  edx = h.edx;
  si = h.si;
  di = h.di;
}
registros_escribir-IsRegistros r reg_dx v h l = record {
  ax = h.ax;
  bx = h.bx;
  cx = h.cx;
  dx = omega arith;
  eax = h.eax;
  ebx = h.ebx;
  ecx = h.ecx;
  edx = h.edx;
  si = h.si;
  di = h.di;
}
registros_escribir-IsRegistros r reg_eax v h l = record {
  ax = h.ax;
  bx = h.bx;
  cx = h.cx;
  dx = h.dx;
  eax = l;
  ebx = h.ebx;
  ecx = h.ecx;
  edx = h.edx;
  si = h.si;
  di = h.di;
}
registros_escribir-IsRegistros r reg_ebx v h l = record {
  ax = h.ax;
  bx = h.bx;
  cx = h.cx;
  dx = h.dx;
  eax = h.eax;
  ebx = l;
  ecx = h.ecx;
  edx = h.edx;
  si = h.si;
  di = h.di;
}
registros_escribir-IsRegistros r reg_ecx v h l = record {
  ax = h.ax;
  bx = h.bx;
  cx = h.cx;
  dx = h.dx;
  eax = h.eax;
  ebx = h.ebx;
  ecx = l;
  edx = h.edx;
  si = h.si;
  di = h.di;
}
registros_escribir-IsRegistros r reg_edx v h l = record {
  ax = h.ax;
  bx = h.bx;
  cx = h.cx;
  dx = h.dx;
  eax = h.eax;
  ebx = h.ebx;
  ecx = h.ecx;
  edx = l;
  si = h.si;
  di = h.di;
}
registros_escribir-IsRegistros r reg_si v h l = record {
  ax = h.ax;
  bx = h.bx;
  cx = h.cx;
  dx = h.dx;
  eax = h.eax;
  ebx = h.ebx;
  ecx = h.ecx;
  edx = h.edx;
  si = l;
  di = h.di;
}
registros_escribir-IsRegistros r reg_di v h l = record {
  ax = h.ax;
  bx = h.bx;
  cx = h.cx;
  dx = h.dx;
  eax = h.eax;
  ebx = h.ebx;
  ecx = h.ecx;
  edx = h.edx;
  si = h.si;
  di = l;
}

registros_leer-IsU32 : (r : Registros) (reg : RegId) → IsRegistros r → registros_leer r reg < 2 ^ 32
unfolding registros_leer
registros_leer-IsU32 r reg_ax h = omega (arith, h.ax)
registros_leer-IsU32 r reg_bx h = omega (arith, h.bx)
registros_leer-IsU32 r reg_cx h = omega (arith, h.cx)
registros_leer-IsU32 r reg_dx h = omega (arith, h.dx)
registros_leer-IsU32 r reg_eax h = h.eax
registros_leer-IsU32 r reg_ebx h = h.ebx
registros_leer-IsU32 r reg_ecx h = h.ecx
registros_leer-IsU32 r reg_edx h = h.edx
registros_leer-IsU32 r reg_si h = h.si
registros_leer-IsU32 r reg_di h = h.di

abbrev siguiente : ℕ → ℕ
siguiente pc = (pc + 1) % 2 ^ 32

siguiente-IsU32 : (pc : ℕ) → siguiente pc < 2 ^ 32
siguiente-IsU32 pc = omega arith

pub registros_size-lt : (reg : RegId) → registros_size reg < 5
unfolding registros_size
registros_size-lt reg_ax = omega arith
registros_size-lt reg_bx = omega arith
registros_size-lt reg_cx = omega arith
registros_size-lt reg_dx = omega arith
registros_size-lt reg_eax = omega arith
registros_size-lt reg_ebx = omega arith
registros_size-lt reg_ecx = omega arith
registros_size-lt reg_edx = omega arith
registros_size-lt reg_si = omega arith
registros_size-lt reg_di = omega arith

pub avanzado : (ctx : ContextoCpu) → IsContexto ctx → IsContexto (avanzar ctx)
avanzado ctx h = record { pc = siguiente-IsU32 ctx.pc; registros = h.registros }

pub escrito :
    (ctx : ContextoCpu) (reg : RegId) (v : ℕ)
    → IsContexto ctx
    → v < 2 ^ 32
    → IsContexto (avanzar (con_registro ctx reg v))
escrito ctx reg v h l = record {
  pc = siguiente-IsU32 ctx.pc;
  registros = registros_escribir-IsRegistros ctx.registros reg v h.registros l;
}
