-- ===== src/Cpu/Mmu.antt =====
-- cpu/src/mmu/mmu.c. What the memory answers is a parameter: the frame of a page of a process.
pub mod Traduccion
use recursos_so.Prelude.{
  ℕ, ◌+◌, ◌*◌, ◌/◌, ◌%◌, ◌^◌, Bool, true, false, Option, none, some, if◌then◌else◌, ◌==◌,
}
use recursos_so.Modelo.{ContextoCpu, MotivoDesalojo, motivo_segfault}
use recursos_so.Cpu.Tlb.{Tlb, tlb_lookup, tlb_update, tlb_clear_pid}

-- The static pid_actual, the TLB, and CPU_CTX.motivo_desalojo.
pub record Mmu : Type 0 where
  pub pid_actual : ℕ
  pub tlb : Tlb
  pub motivo_desalojo : MotivoDesalojo

unfoldable pub mmu_set_contexto : ContextoCpu → Mmu → Mmu
unfolding tlb_clear_pid
mmu_set_contexto ctx m =
    if m.pid_actual == ctx.pid
    then m
    else record m { tlb = tlb_clear_pid m.pid_actual m.tlb; pid_actual = ctx.pid }

-- memoria_obtener_marco: the pid, the page and whether it is a write.
abbrev pub Memoria : Type 0
Memoria = ℕ → ℕ → Bool → Option ℕ

-- marco * tam_pag + offset on uint32_t
abbrev pub direccion : ℕ → ℕ → ℕ → ℕ
direccion tam_pag marco dir_logica = (marco * tam_pag + dir_logica % tam_pag) % 2 ^ 32

-- `none` is TRADUCCION_ERROR.
unfoldable pub mmu_traducir : Memoria → ℕ → ℕ → Bool → Mmu → Option ℕ × Mmu
mmu_traducir memoria_obtener_marco tam_pag dir_logica escritura m =
    let pagina = dir_logica / tam_pag in
    let (acierto, t) = tlb_lookup m.pid_actual pagina m.tlb in
    elim acierto [
      | some marco ↦ (some (direccion tam_pag marco dir_logica), record m { tlb = t })
      | none ↦ elim (memoria_obtener_marco m.pid_actual pagina escritura) [
        | none ↦ (none, record m { tlb = t; motivo_desalojo = motivo_segfault })
        | some marco ↦ (
          some (direccion tam_pag marco dir_logica),
          record m { tlb = tlb_update m.pid_actual pagina marco t },
        )
      ]
    ]
