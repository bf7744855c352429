-- ===== src/Cpu/Ejemplos/Programas.antt =====
-- A memory that answers, and a program of two lines, on which the theorems about the cycle are applied.
use recursos_so.Prelude.{
  ℕ, zero, suc, ◌<◌, ◌≡◌, ◌≢◌, refl, Bool, true, false, List, [], ◌∷◌, Option, some, if◌then◌else◌,
  ◌==◌, replicate, All, subst, String, str_eq, arith,
}
use recursos_so.Modelo.{reg_ax, Registros, ContextoCpu, cpu_continuar, motivo_io}
use recursos_so.Cpu.Decode.{
  Instruccion, inst_con, inst_exit, inst_wait, inst_copy_string, decoder_parsear,
}
use recursos_so.Cpu.Decode.Tabla.{Segun, tabla, opcode_esperado, decoder_parsear-Segun}
use recursos_so.Cpu.Ejecucion.{Servicio, Cpu, execute_instruccion}
use recursos_so.Cpu.Ejecucion.Rangos.{IsContexto, DaBytes}
use recursos_so.Cpu.Ejecucion.Efectos.{Efecto, execute_instruccion-Efecto}
use recursos_so.Cpu.Ciclo.{
  op_fin_de_quantum, op_wait_recurso, Respuesta, responder, cpu_handler_atender_ejecucion,
}
use recursos_so.Cpu.Ciclo.Corrida.{Propio}
use recursos_so.Cpu.Ciclo.Envio.{
  cpu_handler_atender_ejecucion-Propio, cpu_handler_atender_ejecucion-heredada,
}

-- Every page is in the frame of its number, every byte is 7, and the program waits for a resource at 1.
abbrev servicio_siete : Servicio Bool
servicio_siete = record {
  pagina = λ pid pagina s. (some pagina, s);
  lectura = λ pid dir size s. (some (replicate size 7), s);
  escritura = λ pid dir datos s. (true, s);
  resize = λ pid tam s. (true, s);
  instruccion = λ pid pc s. (some (some (if pc == 1 then "WAIT RA" else "SET BX 5")), s);
}

abbrev atoi_cinco : String → ℕ
atoi_cinco s = 5

abbrev tokens_de : String → List String
tokens_de s = if str_eq s "WAIT RA" then "WAIT" ∷ "RA" ∷ [] else "SET" ∷ "BX" ∷ "5" ∷ []

replicate-bytes : (n : ℕ) → All (λ b. b < 256) (replicate n 7)
replicate-bytes zero = tt
replicate-bytes (suc n) = (omega arith, replicate-bytes n)

servicio_siete-DaBytes : DaBytes servicio_siete
servicio_siete-DaBytes pid dir size s datos e =
    let e1 : ◌≡◌ {A = Option (List ℕ)} (some (replicate size 7)) (some datos) = e in
    let e2 : replicate size 7 ≡ datos = cc in subst (All (λ b. b < 256)) e2 (replicate-bytes size)

abbrev ceros : Registros
ceros = record {
  ax = 0;
  bx = 0;
  cx = 0;
  dx = 0;
  eax = 0;
  ebx = 0;
  ecx = 0;
  edx = 0;
  si = 0;
  di = 0;
}

abbrev contexto_cero : ContextoCpu
contexto_cero = record { pid = 1; pc = 0; registros = ceros }

contexto_cero-IsContexto : IsContexto contexto_cero
contexto_cero-IsContexto = record {
  pc = omega arith;
  registros = record {
    ax = omega arith;
    bx = omega arith;
    cx = omega arith;
    dx = omega arith;
    eax = omega arith;
    ebx = omega arith;
    ecx = omega arith;
    edx = omega arith;
    si = omega arith;
    di = omega arith;
  };
}

abbrev cpu_cero : Cpu Bool
cpu_cero = record {
  ctx = contexto_cero;
  mmu = record {
    pid_actual = 0;
    tlb = record { entradas = []; max = 1; lru = true; clock_lru = 0; fifo_ptr = 0 };
    motivo_desalojo = cpu_continuar;
  };
  ultima_instruccion = inst_con inst_exit;
  flag_interrupcion = false;
  memoria = true;
}

decoder_parsear-Segun_example :
    Segun (opcode_esperado tabla "WAIT" 1) (decoder_parsear atoi_cinco ("WAIT" ∷ []))
decoder_parsear-Segun_example = decoder_parsear-Segun atoi_cinco ("WAIT" ∷ [])

abbrev copia : Instruccion
copia = record {
  opcode = inst_copy_string;
  operandos = record { r1 = reg_ax; r2 = reg_ax; inmediato = 0 };
  parametros = "";
}

execute_instruccion-Efecto_example :
    Efecto
      (record cpu_cero { ultima_instruccion = copia })
      (execute_instruccion servicio_siete 64 copia cpu_cero)
execute_instruccion-Efecto_example =
    execute_instruccion-Efecto servicio_siete 64 copia cpu_cero servicio_siete-DaBytes
      contexto_cero-IsContexto (omega arith)

cpu_handler_atender_ejecucion-Propio_example :
    (r : Respuesta) × (c' : Cpu Bool) × (cpu_handler_atender_ejecucion servicio_siete 64 atoi_cinco
        tokens_de
        (false ∷ false ∷ true ∷ [])
        false
        contexto_cero
        cpu_cero
      ≡ some (r, c'))
    × Propio 1 r.ctx
cpu_handler_atender_ejecucion-Propio_example =
    cpu_handler_atender_ejecucion-Propio servicio_siete 64 atoi_cinco tokens_de
      (false ∷ false ∷ true ∷ []) false contexto_cero cpu_cero servicio_siete-DaBytes
      (λ s. omega arith) contexto_cero-IsContexto refl

abbrev contexto_espera : ContextoCpu
contexto_espera = record { pid = 1; pc = 1; registros = ceros }

abbrev espera : Instruccion
espera = record {
  opcode = inst_wait;
  operandos = record { r1 = reg_ax; r2 = reg_ax; inmediato = 0 };
  parametros = "RA";
}

-- The state of the CPU after process 1 waits for RA, with an interruption that came late.
abbrev cpu_marcada : Cpu Bool
cpu_marcada = record cpu_cero {
  ctx = record contexto_espera { pc = 2 };
  mmu = record {
    pid_actual = 1;
    tlb = record { entradas = []; max = 1; lru = true; clock_lru = 0; fifo_ptr = 0 };
    motivo_desalojo = motivo_io;
  };
  ultima_instruccion = espera;
  flag_interrupcion = true;
}

abbrev respuesta_espera : Respuesta
respuesta_espera = responder op_wait_recurso (record contexto_espera { pc = 2 }) espera

corrida_espera :
    cpu_handler_atender_ejecucion servicio_siete 64 atoi_cinco tokens_de
      (false ∷ [])
      true
      contexto_espera
      cpu_cero
    ≡ some (respuesta_espera, cpu_marcada)
unfolding cpu_handler_atender_ejecucion responder
corrida_espera = refl

no_fin : respuesta_espera.rs_code ≢ op_fin_de_quantum
unfolding responder
no_fin e = cc

cpu_handler_atender_ejecucion-heredada_example :
    (c'' : Cpu Bool) × (cpu_handler_atender_ejecucion servicio_siete 64 atoi_cinco tokens_de
        (false ∷ false ∷ [])
        false
        contexto_cero
        cpu_marcada
      ≡ some (responder op_fin_de_quantum contexto_cero espera, c''))
cpu_handler_atender_ejecucion-heredada_example =
    cpu_handler_atender_ejecucion-heredada servicio_siete 64 atoi_cinco tokens_de (false ∷ [])
      contexto_espera cpu_cero respuesta_espera cpu_marcada corrida_espera no_fin false (false ∷ [])
      false contexto_cero
