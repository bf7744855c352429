-- ===== src/Cpu/Registros.antt =====
-- cpu/src/registros/registros.c and the instructions of cpu/src/instrucciones/operaciones.c that only
-- work on the registers.
pub mod Leyes
use recursos_so.Prelude.{ℕ, ◌+◌, ◌-◌, ◌%◌, ◌^◌, Bool, true, false, ◌==◌, if◌then◌else◌}
use recursos_so.Modelo.{
  RegId, reg_ax, reg_bx, reg_cx, reg_dx, reg_eax, reg_ebx, reg_ecx, reg_edx, reg_si, reg_di,
  Registros, ContextoCpu,
}

unfoldable pub registros_leer : Registros → RegId → ℕ
registros_leer r reg_ax = r.ax
registros_leer r reg_bx = r.bx
registros_leer r reg_cx = r.cx
registros_leer r reg_dx = r.dx
registros_leer r reg_eax = r.eax
registros_leer r reg_ebx = r.ebx
registros_leer r reg_ecx = r.ecx
registros_leer r reg_edx = r.edx
registros_leer r reg_si = r.si
registros_leer r reg_di = r.di

-- `valor` is a uint32_t; a byte register takes its lowest byte.
unfoldable pub registros_escribir : Registros → RegId → ℕ → Registros
registros_escribir r reg_ax valor = record r { ax = valor % 256 }
registros_escribir r reg_bx valor = record r { bx = valor % 256 }
registros_escribir r reg_cx valor = record r { cx = valor % 256 }
registros_escribir r reg_dx valor = record r { dx = valor % 256 }
registros_escribir r reg_eax valor = record r { eax = valor }
registros_escribir r reg_ebx valor = record r { ebx = valor }
registros_escribir r reg_ecx valor = record r { ecx = valor }
registros_escribir r reg_edx valor = record r { edx = valor }
registros_escribir r reg_si valor = record r { si = valor }
registros_escribir r reg_di valor = record r { di = valor }

unfoldable pub registros_size : RegId → ℕ
registros_size reg_ax = 1
registros_size reg_bx = 1
registros_size reg_cx = 1
registros_size reg_dx = 1
registros_size _ = 4

-- The instruction's operands.
pub record Operandos : Type 0 where
  pub r1 : RegId
  pub r2 : RegId
  pub inmediato : ℕ

-- ctx->pc++
abbrev pub avanzar : ContextoCpu → ContextoCpu
avanzar ctx = record ctx { pc = (ctx.pc + 1) % 2 ^ 32 }

abbrev pub con_registro : ContextoCpu → RegId → ℕ → ContextoCpu
con_registro ctx reg valor = record ctx { registros = registros_escribir ctx.registros reg valor }

unfoldable pub ejecutar_set : Operandos → ContextoCpu → ContextoCpu
unfolding registros_escribir
ejecutar_set i ctx = avanzar (con_registro ctx i.r1 i.inmediato)

unfoldable pub ejecutar_sum : Operandos → ContextoCpu → ContextoCpu
unfolding registros_escribir registros_leer
ejecutar_sum i ctx = avanzar (
    con_registro ctx i.r1
      ((registros_leer ctx.registros i.r1 + registros_leer ctx.registros i.r2) % 2 ^ 32))

-- a - b on uint32_t
unfoldable pub ejecutar_sub : Operandos → ContextoCpu → ContextoCpu
unfolding registros_escribir registros_leer
ejecutar_sub i ctx = avanzar (
    con_registro ctx i.r1
      ((registros_leer ctx.registros i.r1 + 2 ^ 32 - registros_leer ctx.registros i.r2) % 2 ^ 32))

unfoldable pub ejecutar_jnz : Operandos → ContextoCpu → ContextoCpu
unfolding registros_leer
ejecutar_jnz i ctx =
    if registros_leer ctx.registros i.r1 == 0 then avanzar ctx else record ctx { pc = i.inmediato }
