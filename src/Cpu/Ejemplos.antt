-- ===== src/Cpu/Ejemplos.antt =====
-- A full TLB, and registers, on which the theorems about the CPU are applied.
pub mod Programas
use recursos_so.Prelude.{◌+◌, ◌≡◌, refl, true, [], ◌∷◌, none, some, arith}
use recursos_so.Modelo.{reg_ax, reg_ebx, Registros, ContextoCpu, IsRegistros, cpu_continuar}
use recursos_so.Cpu.Registros.{Operandos, registros_leer, ejecutar_sum, ejecutar_sub}
use recursos_so.Cpu.Registros.Leyes.{ejecutar_sub-ejecutar_sum}
use recursos_so.Cpu.Tlb.{Entrada, Tlb, tlb_lookup, tlb_update, elegir_victima}
use recursos_so.Cpu.Tlb.Victima.{MenosUsada, elegir_victima-MenosUsada}
use recursos_so.Cpu.Tlb.Leyes.{IsValida, tlb_lookup-tlb_update}
use recursos_so.Cpu.Mmu.{Mmu, Memoria, mmu_set_contexto, mmu_traducir}
use recursos_so.Cpu.Mmu.Traduccion.{
  IsCoherente, traduccion_directa, mmu_traducir-IsCoherente, mmu_set_contexto-IsCoherente,
}

abbrev unos : Registros
unos = record {
  ax = 200;
  bx = 1;
  cx = 1;
  dx = 1;
  eax = 1;
  ebx = 4294967295;
  ecx = 1;
  edx = 1;
  si = 1;
  di = 1;
}

unos-IsRegistros : IsRegistros unos
unos-IsRegistros = record {
  ax = omega arith;
  bx = omega arith;
  cx = omega arith;
  dx = omega arith;
  eax = omega arith;
  ebx = omega arith;
  ecx = omega arith;
  edx = omega arith;
  si = omega arith;
  di = omega arith;
}

abbrev contexto : ContextoCpu
contexto = record { pid = 1; pc = 3; registros = unos }

abbrev suma : Operandos
suma = record { r1 = reg_ax; r2 = reg_ebx; inmediato = 0 }

ejecutar_sub-ejecutar_sum_example :
    registros_leer (ejecutar_sub suma (ejecutar_sum suma contexto)).registros reg_ax
    ≡ registros_leer unos reg_ax
ejecutar_sub-ejecutar_sum_example =
    ejecutar_sub-ejecutar_sum suma contexto reg_ax unos-IsRegistros cc

-- The frame of each page of process 1 is the page plus four.
abbrev memoria_fija : Memoria
memoria_fija pid pagina w = some (pagina + 4)

abbrev entrada_uno : Entrada
entrada_uno = record { pid = 1; pagina = 0; marco = 4; last_use = 9 }

abbrev entrada_dos : Entrada
entrada_dos = record { pid = 1; pagina = 1; marco = 5; last_use = 8 }

abbrev tlb_llena : Tlb
tlb_llena = record {
  entradas = entrada_uno ∷ entrada_dos ∷ [];
  max = 2;
  lru = true;
  clock_lru = 9;
  fifo_ptr = 0;
}

tlb_llena-IsValida : IsValida tlb_llena
tlb_llena-IsValida = record {
  con_lugar = omega arith;
  acotada = omega arith;
  puntero = omega arith;
}

falla_dos : (tlb_lookup 1 2 tlb_llena).0 ≡ none
unfolding tlb_lookup
falla_dos = refl

tlb_lookup-tlb_update_example : (tlb_lookup 1 2 (tlb_update 1 2 6 tlb_llena)).0 ≡ some 6
tlb_lookup-tlb_update_example = tlb_lookup-tlb_update 1 2 6 tlb_llena tlb_llena-IsValida falla_dos

elegir_victima-MenosUsada_example : MenosUsada tlb_llena.entradas (elegir_victima tlb_llena)
elegir_victima-MenosUsada_example = elegir_victima-MenosUsada tlb_llena refl (omega arith)

abbrev mmu_uno : Mmu
mmu_uno = record { pid_actual = 1; tlb = tlb_llena; motivo_desalojo = cpu_continuar }

mmu_uno-IsCoherente : IsCoherente memoria_fija mmu_uno
mmu_uno-IsCoherente = record {
  valida = tlb_llena-IsValida;
  vigentes = ((refl, λ w. refl), ((refl, λ w. refl), tt));
}

mmu_traducir-IsCoherente_example :
    ((mmu_traducir memoria_fija 64 130 true mmu_uno).0
      ≡ traduccion_directa memoria_fija 64 130 true 1)
    × IsCoherente memoria_fija (mmu_traducir memoria_fija 64 130 true mmu_uno).1
mmu_traducir-IsCoherente_example =
    mmu_traducir-IsCoherente memoria_fija (λ pid pagina a b. refl) 64 130 true mmu_uno
      mmu_uno-IsCoherente

abbrev contexto_dos : ContextoCpu
contexto_dos = record { pid = 2; pc = 0; registros = unos }

mmu_set_contexto-IsCoherente_example :
    ((mmu_set_contexto contexto_dos mmu_uno).pid_actual ≡ 2)
    × IsCoherente memoria_fija (mmu_set_contexto contexto_dos mmu_uno)
mmu_set_contexto-IsCoherente_example =
    mmu_set_contexto-IsCoherente memoria_fija contexto_dos mmu_uno mmu_uno-IsCoherente
