-- ===== src/Cpu/Decode.antt =====
-- cpu/src/ciclo_instruccion/decode.c, on the tokens of the line. string_split is the library's, and so
-- is atoi, which is a parameter: the number of a token as a uint32_t.
pub mod Tabla
pub mod Rango
use recursos_so.Prelude.{
  ℕ, Bool, true, false, List, ltb, if◌then◌else◌, length, get_or, String, str_eq,
}
use Prim.Native.String.{◌++◌ as str_append}
use recursos_so.Modelo.{
  RegId, reg_ax, reg_bx, reg_cx, reg_dx, reg_eax, reg_ebx, reg_ecx, reg_edx, reg_si, reg_di,
}
use recursos_so.Cpu.Registros.{Operandos}

-- opcode_t
pub data Opcode : Type 0 where
  inst_set inst_sum inst_sub inst_jnz inst_io inst_io_gen_sleep inst_io_stdin_read
        inst_io_stdout_write inst_io_fs_create inst_io_fs_delete inst_io_fs_truncate
        inst_io_fs_write inst_io_fs_read inst_mov_in inst_mov_out inst_resize inst_copy_string
        inst_wait inst_signal inst_exit fin_quantum :
      Opcode

-- instruccion_t. `parametros` is a text, which the code has in 256 bytes.
pub record Instruccion : Type 0 where
  pub opcode : Opcode
  pub operandos : Operandos
  pub parametros : String

-- instruccion_t inst = {0}, with an opcode.
abbrev pub inst_con : Opcode → Instruccion
inst_con op = record {
  opcode = op;
  operandos = record { r1 = reg_ax; r2 = reg_ax; inmediato = 0 };
  parametros = "";
}

-- Any other name is AX.
unfoldable pub parse_registro : String → RegId
parse_registro r =
    if str_eq r "AX"
    then reg_ax
    else if str_eq r "BX"
    then reg_bx
    else if str_eq r "CX"
    then reg_cx
    else if str_eq r "DX"
    then reg_dx
    else if str_eq r "EAX"
    then reg_eax
    else if str_eq r "EBX"
    then reg_ebx
    else if str_eq r "ECX"
    then reg_ecx
    else if str_eq r "EDX"
    then reg_edx
    else if str_eq r "SI"
    then reg_si
    else if str_eq r "DI"
    then reg_di
    else reg_ax

-- t[i]
abbrev pub token : List String → ℕ → String
token t i = get_or t i ""

-- The guard on the number of tokens.
unfoldable pub requiere : ℕ → List String → Instruccion → Instruccion
requiere n t inst = if ltb (length t) n then inst_con inst_exit else inst

-- Two registers, from the tokens `i` and `j`.
unfoldable pub dos_registros : Opcode → List String → ℕ → ℕ → String → ℕ → Instruccion
unfolding parse_registro
dos_registros op t i j parametros inmediato = record {
  opcode = op;
  operandos = record {
    r1 = parse_registro (token t i);
    r2 = parse_registro (token t j);
    inmediato = inmediato;
  };
  parametros = parametros;
}

-- One register, from the token `i`; `r2` stays 0, which is AX.
unfoldable pub un_registro : Opcode → List String → ℕ → String → ℕ → Instruccion
unfolding parse_registro
un_registro op t i parametros inmediato = record {
  opcode = op;
  operandos = record { r1 = parse_registro (token t i); r2 = reg_ax; inmediato = inmediato };
  parametros = parametros;
}

-- No register.
unfoldable pub sin_registros : Opcode → String → ℕ → Instruccion
sin_registros op parametros inmediato = record {
  opcode = op;
  operandos = record { r1 = reg_ax; r2 = reg_ax; inmediato = inmediato };
  parametros = parametros;
}

-- The interface and the file, with a blank between them.
unfoldable pub archivo : List String → String
archivo t = str_append (token t 1) (str_append " " (token t 2))

-- The string comparisons from SET to COPY_STRING, where there is a token.
unfoldable pub segun_nombre : (String → ℕ) → List String → Instruccion
unfolding requiere dos_registros un_registro sin_registros archivo
segun_nombre atoi t =
    let t0 = token t 0 in
    if str_eq t0 "SET"
    then requiere 3 t (un_registro inst_set t 1 "" (atoi (token t 2)))
    else if str_eq t0 "SUM"
    then requiere 3 t (dos_registros inst_sum t 1 2 "" 0)
    else if str_eq t0 "SUB"
    then requiere 3 t (dos_registros inst_sub t 1 2 "" 0)
    else if str_eq t0 "JNZ"
    then requiere 3 t (un_registro inst_jnz t 1 "" (atoi (token t 2)))
    else if str_eq t0 "IO_GEN_SLEEP"
    then requiere 3 t (sin_registros inst_io_gen_sleep (token t 1) (atoi (token t 2)))
    else if str_eq t0 "IO_STDIN_READ"
    then requiere 4 t (dos_registros inst_io_stdin_read t 2 3 (token t 1) 0)
    else if str_eq t0 "IO_STDOUT_WRITE"
    then requiere 4 t (dos_registros inst_io_stdout_write t 2 3 (token t 1) 0)
    else if str_eq t0 "IO_FS_CREATE"
    then requiere 3 t (sin_registros inst_io_fs_create (archivo t) 0)
    else if str_eq t0 "IO_FS_DELETE"
    then requiere 3 t (sin_registros inst_io_fs_delete (archivo t) 0)
    else if str_eq t0 "IO_FS_TRUNCATE"
    then requiere 4 t (un_registro inst_io_fs_truncate t 3 (archivo t) 0)
    else if str_eq t0 "IO_FS_WRITE"
    then requiere 6 t (dos_registros inst_io_fs_write t 3 4 (archivo t) (atoi (token t 5)))
    else if str_eq t0 "IO_FS_READ"
    then requiere 6 t (dos_registros inst_io_fs_read t 3 4 (archivo t) (atoi (token t 5)))
    else if str_eq t0 "WAIT"
    then requiere 2 t (sin_registros inst_wait (token t 1) 0)
    else if str_eq t0 "SIGNAL"
    then requiere 2 t (sin_registros inst_signal (token t 1) 0)
    else if str_eq t0 "MOV_IN"
    then requiere 3 t (dos_registros inst_mov_in t 1 2 "" 0)
    else if str_eq t0 "MOV_OUT"
    then requiere 3 t (dos_registros inst_mov_out t 1 2 "" 0)
    else if str_eq t0 "RESIZE"
    then requiere 2 t (sin_registros inst_resize "" (atoi (token t 1)))
    else if str_eq t0 "COPY_STRING"
    then requiere 2 t (sin_registros inst_copy_string "" (atoi (token t 1)))
    else inst_con inst_exit

unfoldable pub decoder_parsear : (String → ℕ) → List String → Instruccion
unfolding segun_nombre
decoder_parsear atoi t = if ltb (length t) 1 then inst_con inst_exit else segun_nombre atoi t
