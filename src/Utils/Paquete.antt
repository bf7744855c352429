-- ===== src/Utils/Paquete.antt =====
-- utils/src/paquete/paquete.c: a package is a stream of bytes with a read position. An allocation gives its
-- memory, and a number lies in memory with its lowest byte first.
pub mod Lectura
use recursos_so.Prelude.{
  ℕ, ◌+◌, ◌*◌, ◌/◌, ◌%◌, ◌^◌, Bool, true, false, List, [], ◌∷◌, ◌++◌, Option, none, some, ltb, ◌==◌,
  if◌then◌else◌, length, take, drop,
}

-- t_buffer; `size` is the length of the stream.
pub record Buffer : Type 0 where
  pub stream : List ℕ
  pub offset : ℕ

-- op_code
pub data OpCode : Type 0 where
  op_fail op_ok op_mensaje op_paquete op_respuesta_generica op_handshake op_handshake_io
        op_proceso_exec op_interrupcion_cpu op_fin_de_quantum op_cpu_fin_proceso op_desalojo
        op_segfault op_mem_init_proceso op_mem_fin_proceso op_mem_traducir_pagina op_mem_leer
        op_mem_escribir op_mem_fetch_instruccion op_mem_ajustar_tamanio op_mem_resp_traduccion
        op_mem_resp_instruccion op_mem_resp_lectura op_mem_resp_escritura op_io_sleep
        op_io_fs_create op_io_fs_delete op_io_fs_truncate op_io_fs_write op_io_fs_read
        op_io_fin_operacion op_signal_recurso op_wait_recurso op_bloqueo_io op_io_stdin_read
        op_io_stdout_write op_consola_run op_consola_kill op_consola_ps op_consola_algoritmo
        op_consola_start op_consola_pause op_consola_desalojar op_consola_ps_resp op_consola_exit :
      OpCode

-- t_paquete
pub record Paquete : Type 0 where
  pub codigo_operacion : OpCode
  pub buffer : Buffer

unfoldable pub buffer_create : Buffer
buffer_create = record { stream = []; offset = 0 }

unfoldable pub buffer_write : List ℕ → Buffer → Buffer
buffer_write datos b = record b { stream = b.stream ++ datos }

-- The end of what is read is a uint32_t, so it wraps.
unfoldable pub buffer_read : ℕ → Buffer → Option (List ℕ × Buffer)
buffer_read size b =
    if ltb (length b.stream) ((b.offset + size) % 2 ^ 32)
    then none
    else some (take size (drop b.offset b.stream), record b { offset = (b.offset + size) % 2 ^ 32 })

-- The bytes of a uint32_t, and the number that bytes are.
unfoldable pub bytes_uint32 : ℕ → List ℕ
bytes_uint32 v = v % 256 ∷ v / 256 % 256 ∷ v / 65536 % 256 ∷ v / 16777216 % 256 ∷ []

unfoldable pub de_bytes : List ℕ → ℕ
de_bytes [] = 0
de_bytes (x ∷ xs) = x + 256 * de_bytes xs

unfoldable pub paquete_write_uint8 : ℕ → Buffer → Buffer
unfolding buffer_write
paquete_write_uint8 v = buffer_write (v ∷ [])

unfoldable pub paquete_write_uint32 : ℕ → Buffer → Buffer
unfolding buffer_write bytes_uint32
paquete_write_uint32 v = buffer_write (bytes_uint32 v)

unfoldable pub paquete_write_bool : Bool → Buffer → Buffer
unfolding buffer_write
paquete_write_bool v = buffer_write ((if v then 1 else 0) ∷ [])

unfoldable pub paquete_write_buffer : List ℕ → Buffer → Buffer
unfolding buffer_write bytes_uint32
paquete_write_buffer datos b = buffer_write datos (buffer_write (bytes_uint32 (length datos)) b)

-- A text is written with the zero byte that ends it.
unfoldable pub paquete_write_string : List ℕ → Buffer → Buffer
unfolding paquete_write_buffer
paquete_write_string s = paquete_write_buffer (s ++ 0 ∷ [])

-- A read that fails leaves the variable as it was: the first argument is what was in it.
unfoldable pub paquete_read_uint8 : ℕ → Buffer → Bool × ℕ × Buffer
unfolding buffer_read de_bytes
paquete_read_uint8 v b = elim (buffer_read 1 b) [
  | none ↦ (false, v, b)
  | some (d, b1) ↦ (true, de_bytes d, b1)
]

unfoldable pub paquete_read_uint32 : ℕ → Buffer → Bool × ℕ × Buffer
unfolding buffer_read de_bytes
paquete_read_uint32 v b = elim (buffer_read 4 b) [
  | none ↦ (false, v, b)
  | some (d, b1) ↦ (true, de_bytes d, b1)
]

unfoldable pub paquete_read_bool : Bool → Buffer → Bool × Bool × Buffer
unfolding buffer_read de_bytes
paquete_read_bool v b = elim (buffer_read 1 b) [
  | none ↦ (false, v, b)
  | some (d, b1) ↦ (true, if de_bytes d == 0 then false else true, b1)
]

-- `none` is the null pointer. A size that was read stays read.
unfoldable pub paquete_read_buffer : Buffer → Option (List ℕ) × Buffer
unfolding buffer_read de_bytes
paquete_read_buffer b = elim (buffer_read 4 b) [
  | none ↦ (none, b)
  | some (d, b1) ↦ elim (buffer_read (de_bytes d) b1) [
    | none ↦ (none, b1)
    | some (datos, b2) ↦ (some datos, b2)
  ]
]

-- The bytes of the text that the pointer leads to, up to its zero byte.
unfoldable pub hasta_nul : List ℕ → List ℕ
hasta_nul [] = []
hasta_nul (x ∷ xs) = if x == 0 then [] else x ∷ hasta_nul xs

unfoldable pub paquete_read_string : Buffer → Option (List ℕ) × Buffer
unfolding paquete_read_buffer hasta_nul
paquete_read_string b =
    let (s, b1) = paquete_read_buffer b in
    (elim s [ none ↦ none | some datos ↦ some (hasta_nul datos) ], b1)
