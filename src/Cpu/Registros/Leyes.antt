-- ===== src/Cpu/Registros/Leyes.antt =====
-- registros.c as cells that are read and written, and the arithmetic of SUM and SUB.
use recursos_so.Prelude.{ℕ, ◌+◌, ◌-◌, ◌%◌, ◌^◌, ◌<◌, ◌≡◌, ◌≢◌, refl, ◌∙◌, arith, subst}
use recursos_so.Modelo.{
  RegId, reg_ax, reg_bx, reg_cx, reg_dx, reg_eax, reg_ebx, reg_ecx, reg_edx, reg_si, reg_di,
  Registros, ContextoCpu, IsRegistros,
}
use recursos_so.Cpu.Registros.{
  registros_leer, registros_escribir, registros_size, Operandos, ejecutar_sum, ejecutar_sub,
}

-- How many values a register holds.
abbrev pub modulo : RegId → ℕ
modulo reg = 256 ^ registros_size reg

registros_leer-escribir_self :
    (r : Registros) (reg : RegId) (v : ℕ)
    → v < 2 ^ 32
    → registros_leer (registros_escribir r reg v) reg ≡ v % modulo reg
unfolding registros_leer registros_escribir registros_size
registros_leer-escribir_self r reg_ax v l = refl
registros_leer-escribir_self r reg_bx v l = refl
registros_leer-escribir_self r reg_cx v l = refl
registros_leer-escribir_self r reg_dx v l = refl
registros_leer-escribir_self r reg_eax v l = omega arith
registros_leer-escribir_self r reg_ebx v l = omega arith
registros_leer-escribir_self r reg_ecx v l = omega arith
registros_leer-escribir_self r reg_edx v l = omega arith
registros_leer-escribir_self r reg_si v l = omega arith
registros_leer-escribir_self r reg_di v l = omega arith

registros_leer-escribir_ne :
    (r : Registros) (reg otro : RegId) (v : ℕ)
    → reg ≢ otro
    → registros_leer (registros_escribir r reg v) otro ≡ registros_leer r otro
unfolding registros_leer registros_escribir
registros_leer-escribir_ne r reg_ax otro v ne = ground arith
registros_leer-escribir_ne r reg_bx otro v ne = ground arith
registros_leer-escribir_ne r reg_cx otro v ne = ground arith
registros_leer-escribir_ne r reg_dx otro v ne = ground arith
registros_leer-escribir_ne r reg_eax otro v ne = ground arith
registros_leer-escribir_ne r reg_ebx otro v ne = ground arith
registros_leer-escribir_ne r reg_ecx otro v ne = ground arith
registros_leer-escribir_ne r reg_edx otro v ne = ground arith
registros_leer-escribir_ne r reg_si otro v ne = ground arith
registros_leer-escribir_ne r reg_di otro v ne = ground arith

registros_leer-IsRegistros :
    (r : Registros) (reg : RegId) → IsRegistros r → registros_leer r reg < modulo reg
unfolding registros_leer registros_size
registros_leer-IsRegistros r reg_ax h = h.ax
registros_leer-IsRegistros r reg_bx h = h.bx
registros_leer-IsRegistros r reg_cx h = h.cx
registros_leer-IsRegistros r reg_dx h = h.dx
registros_leer-IsRegistros r reg_eax h = h.eax
registros_leer-IsRegistros r reg_ebx h = h.ebx
registros_leer-IsRegistros r reg_ecx h = h.ecx
registros_leer-IsRegistros r reg_edx h = h.edx
registros_leer-IsRegistros r reg_si h = h.si
registros_leer-IsRegistros r reg_di h = h.di

-- (a + b) - b, computed with wrap-around and kept in a register of `m` values.
vuelta_byte :
    (a b : ℕ) → a < 256 → b < 2 ^ 32 → ((a + b) % 2 ^ 32 % 256 + 2 ^ 32 - b) % 2 ^ 32 % 256 ≡ a
vuelta_byte a b l l' = omega arith

vuelta_palabra :
    (a b : ℕ)
    → a < 2 ^ 32
    → b < 2 ^ 32
    → ((a + b) % 2 ^ 32 % 2 ^ 32 + 2 ^ 32 - b) % 2 ^ 32 % 2 ^ 32 ≡ a
vuelta_palabra a b l l' = omega arith

vuelta :
    (reg : RegId) (a b : ℕ)
    → a < modulo reg
    → b < 2 ^ 32
    → ((a + b) % 2 ^ 32 % modulo reg + 2 ^ 32 - b) % 2 ^ 32 % modulo reg ≡ a
unfolding registros_size
vuelta reg_ax = vuelta_byte
vuelta reg_bx = vuelta_byte
vuelta reg_cx = vuelta_byte
vuelta reg_dx = vuelta_byte
vuelta reg_eax = vuelta_palabra
vuelta reg_ebx = vuelta_palabra
vuelta reg_ecx = vuelta_palabra
vuelta reg_edx = vuelta_palabra
vuelta reg_si = vuelta_palabra
vuelta reg_di = vuelta_palabra

modulo-le : (reg : RegId) (n : ℕ) → n < modulo reg → n < 2 ^ 32
unfolding registros_size
modulo-le reg_ax n l = omega arith
modulo-le reg_bx n l = omega arith
modulo-le reg_cx n l = omega arith
modulo-le reg_dx n l = omega arith
modulo-le reg_eax n l = l
modulo-le reg_ebx n l = l
modulo-le reg_ecx n l = l
modulo-le reg_edx n l = l
modulo-le reg_si n l = l
modulo-le reg_di n l = l

RegId-discrete : Discrete RegId
RegId-discrete = hlevel

-- Where the registers hold values in their ranges, SUB of two different registers after SUM of the
-- same two gives every register its value back, whatever their widths and also where the sum wraps.
pub ejecutar_sub-ejecutar_sum :
    (i : Operandos) (ctx : ContextoCpu) (reg : RegId)
    → IsRegistros ctx.registros
    → i.r1 ≢ i.r2
    → registros_leer (ejecutar_sub i (ejecutar_sum i ctx)).registros reg
      ≡ registros_leer ctx.registros reg
unfolding ejecutar_sub ejecutar_sum
ejecutar_sub-ejecutar_sum i ctx reg h ne =
    let r = ctx.registros in
    let suma = (registros_leer r i.r1 + registros_leer r i.r2) % 2 ^ 32 in
    let r' = registros_escribir r i.r1 suma in
    let propio : registros_leer r' i.r1 ≡ suma % modulo i.r1 =
      registros_leer-escribir_self r i.r1 suma (ground arith) in
    let otro : registros_leer r' i.r2 ≡ registros_leer r i.r2 =
      registros_leer-escribir_ne r i.r1 i.r2 suma ne in
    let dif = (registros_leer r' i.r1 + 2 ^ 32 - registros_leer r' i.r2) % 2 ^ 32 in
    elim (RegId-discrete i.r1 reg) [
      | yes mismo ↦
          subst (λ k. registros_leer (registros_escribir r' i.r1 dif) k ≡ registros_leer r k) mismo
            (registros_leer-escribir_self r' i.r1 dif (ground arith)
              ∙ rw (propio, otro)
                  (vuelta i.r1 (registros_leer r i.r1) (registros_leer r i.r2)
                    (registros_leer-IsRegistros r i.r1 h)
                    (modulo-le i.r2 (registros_leer r i.r2) (registros_leer-IsRegistros r i.r2 h))))
      | no distinto ↦
          registros_leer-escribir_ne r' i.r1 reg dif distinto
          ∙ registros_leer-escribir_ne r i.r1 reg suma distinto
    ]
