-- ===== src/Utils/Ejemplos.antt =====
-- Messages on which the round trips are applied. What the new struct held is arbitrary.
use recursos_so.Prelude.{◌≡◌, true, false, [], ◌∷◌, some, arith}
use recursos_so.Modelo.{
  Registros, ContextoCpu, MemInitProceso, MemRead, MemWrite, MemRespuestaLectura, IoSleep,
  IsRegistros,
}
use recursos_so.Utils.Paquete.{op_proceso_exec, op_mem_leer, op_mem_escribir, op_mem_init_proceso}
use recursos_so.Utils.Serializacion.{
  serializar_contexto_cpu, deserializar_contexto_cpu, serializar_mem_read, deserializar_mem_read,
  serializar_mem_write, deserializar_mem_write, serializar_mem_respuesta_lectura,
  deserializar_mem_respuesta_lectura, serializar_mem_init_proceso, deserializar_mem_init_proceso,
  serializar_io_sleep, deserializar_io_sleep,
}
use recursos_so.Utils.Serializacion.Contexto.{deserializar-serializar_contexto_cpu}
use recursos_so.Utils.Serializacion.Pedidos.{
  deserializar-serializar_mem_read, deserializar-serializar_io_sleep,
}
use recursos_so.Utils.Serializacion.Datos.{
  deserializar-serializar_mem_write, deserializar-serializar_mem_respuesta_lectura,
  deserializar-serializar_mem_init_proceso,
}

abbrev registros : Registros
registros = record {
  ax = 255;
  bx = 2;
  cx = 3;
  dx = 4;
  eax = 70000;
  ebx = 6;
  ecx = 7;
  edx = 8;
  si = 9;
  di = 4294967295;
}

registros-IsRegistros : IsRegistros registros
registros-IsRegistros = record {
  ax = omega arith;
  bx = omega arith;
  cx = omega arith;
  dx = omega arith;
  eax = omega arith;
  ebx = omega arith;
  ecx = omega arith;
  edx = omega arith;
  si = omega arith;
  di = omega arith;
}

abbrev contexto : ContextoCpu
contexto = record { pid = 258; pc = 3; registros = registros }

abbrev otro_contexto : ContextoCpu
otro_contexto = record { pid = 99; pc = 99; registros = registros }

deserializar-serializar_contexto_cpu_example :
    deserializar_contexto_cpu otro_contexto (serializar_contexto_cpu contexto op_proceso_exec)
    ≡ contexto
deserializar-serializar_contexto_cpu_example =
    deserializar-serializar_contexto_cpu contexto otro_contexto op_proceso_exec (omega arith)
      (omega arith) registros-IsRegistros

abbrev lectura : MemRead
lectura = record { pid = 1; direccion_logica = 70000; size = 4 }

abbrev otra_lectura : MemRead
otra_lectura = record { pid = 0; direccion_logica = 0; size = 0 }

deserializar-serializar_mem_read_example :
    deserializar_mem_read otra_lectura (serializar_mem_read lectura op_mem_leer) ≡ lectura
deserializar-serializar_mem_read_example =
    deserializar-serializar_mem_read lectura otra_lectura op_mem_leer (omega arith) (omega arith)
      (omega arith)

abbrev escritura : MemWrite
escritura = record { pid = 1; direccion_logica = 64; buffer = 7 ∷ 0 ∷ 9 ∷ [] }

abbrev otra_escritura : MemWrite
otra_escritura = record { pid = 0; direccion_logica = 0; buffer = [] }

deserializar-serializar_mem_write_example :
    deserializar_mem_write otra_escritura (serializar_mem_write escritura op_mem_escribir)
    ≡ escritura
deserializar-serializar_mem_write_example =
    deserializar-serializar_mem_write escritura otra_escritura op_mem_escribir (omega arith)
      (omega arith) (omega arith)

abbrev respuesta : MemRespuestaLectura
respuesta = record { correcto = true; datos = 1 ∷ 2 ∷ [] }

abbrev otra_respuesta : MemRespuestaLectura
otra_respuesta = record { correcto = false; datos = [] }

deserializar-serializar_mem_respuesta_lectura_example :
    deserializar_mem_respuesta_lectura otra_respuesta (serializar_mem_respuesta_lectura respuesta)
    ≡ respuesta
deserializar-serializar_mem_respuesta_lectura_example =
    deserializar-serializar_mem_respuesta_lectura respuesta otra_respuesta (omega arith)

abbrev siesta : IoSleep
siesta = record { pid = 1; tiempo = 5000 }

abbrev otra_siesta : IoSleep
otra_siesta = record { pid = 0; tiempo = 0 }

deserializar-serializar_io_sleep_example :
    deserializar_io_sleep otra_siesta (serializar_io_sleep siesta) ≡ some siesta
deserializar-serializar_io_sleep_example =
    deserializar-serializar_io_sleep siesta otra_siesta (omega arith) (omega arith)

abbrev creacion : MemInitProceso
creacion = record { pid = 4; path = 47 ∷ 97 ∷ [] }

abbrev otra_creacion : MemInitProceso
otra_creacion = record { pid = 0; path = [] }

deserializar-serializar_mem_init_proceso_example :
    deserializar_mem_init_proceso otra_creacion
      (serializar_mem_init_proceso creacion op_mem_init_proceso)
    ≡ creacion
deserializar-serializar_mem_init_proceso_example =
    deserializar-serializar_mem_init_proceso creacion otra_creacion op_mem_init_proceso
      (omega arith) (omega arith, (omega arith, tt)) (omega arith)
