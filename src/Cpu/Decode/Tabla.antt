-- ===== src/Cpu/Decode/Tabla.antt =====
-- decode.c against a table of the instructions with their names and numbers of tokens.
use recursos_so.Prelude.{
  ℕ, ◌≡◌, ◌≢◌, refl, Bool, true, false, List, [], ◌∷◌, ltb, if◌then◌else◌, length, get_or, String,
  str_eq, arith,
}
use recursos_so.Cpu.Decode.{
  Opcode, inst_set, inst_sum, inst_sub, inst_jnz, inst_io_gen_sleep, inst_io_stdin_read,
  inst_io_stdout_write, inst_io_fs_create, inst_io_fs_delete, inst_io_fs_truncate, inst_io_fs_write,
  inst_io_fs_read, inst_mov_in, inst_mov_out, inst_resize, inst_copy_string, inst_wait, inst_signal,
  inst_exit, Instruccion, inst_con, requiere, segun_nombre, decoder_parsear, dos_registros,
  un_registro, sin_registros, archivo, token,
}

-- The name, the opcode, and how many tokens the instruction has at least.
pub record Fila : Type 0 where
  pub nombre : String
  pub opcode : Opcode
  pub tokens : ℕ

abbrev fila : String → Opcode → ℕ → Fila
fila nombre opcode tokens = record { nombre = nombre; opcode = opcode; tokens = tokens }

abbrev pub tabla : List Fila
tabla =
    fila "SET" inst_set 3
    ∷ fila "SUM" inst_sum 3
    ∷ fila "SUB" inst_sub 3
    ∷ fila "JNZ" inst_jnz 3
    ∷ fila "IO_GEN_SLEEP" inst_io_gen_sleep 3
    ∷ fila "IO_STDIN_READ" inst_io_stdin_read 4
    ∷ fila "IO_STDOUT_WRITE" inst_io_stdout_write 4
    ∷ fila "IO_FS_CREATE" inst_io_fs_create 3
    ∷ fila "IO_FS_DELETE" inst_io_fs_delete 3
    ∷ fila "IO_FS_TRUNCATE" inst_io_fs_truncate 4
    ∷ fila "IO_FS_WRITE" inst_io_fs_write 6
    ∷ fila "IO_FS_READ" inst_io_fs_read 6
    ∷ fila "WAIT" inst_wait 2
    ∷ fila "SIGNAL" inst_signal 2
    ∷ fila "MOV_IN" inst_mov_in 3
    ∷ fila "MOV_OUT" inst_mov_out 3
    ∷ fila "RESIZE" inst_resize 2
    ∷ fila "COPY_STRING" inst_copy_string 2
    ∷ []

-- The opcode of a line of `n` tokens, the first of which is `nombre`: EXIT where the table does not have
-- it or the line is too short for it.
abbrev pub opcode_esperado : List Fila → String → ℕ → Opcode
opcode_esperado [] nombre n = inst_exit
opcode_esperado (f ∷ fs) nombre n =
    if str_eq nombre f.nombre
    then if ltb n f.tokens then inst_exit else f.opcode
    else opcode_esperado fs nombre n

-- An instruction with the opcode of the table, and with nothing else set where that is EXIT.
pub record Segun (op : Opcode) (i : Instruccion) : Type 0 where
  pub opcode : i.opcode ≡ op
  pub vacia : op ≡ inst_exit → i ≡ inst_con inst_exit

Segun-si :
    (b : Bool) {op otro : Opcode} {i j : Instruccion}
    → Segun op i
    → Segun otro j
    → Segun (if b then op else otro) (if b then i else j)
Segun-si true s o = s
Segun-si false s o = o

salida : Segun inst_exit (inst_con inst_exit)
salida = record { opcode = refl; vacia = λ e. refl }

-- A row of the table: an instruction that is not EXIT, behind the guard on the tokens.
Segun-requiere :
    (n : ℕ) (t : List String) (op : Opcode) (i : Instruccion)
    → i.opcode ≡ op
    → op ≢ inst_exit
    → Segun (if ltb (length t) n then inst_exit else op) (requiere n t i)
unfolding requiere
Segun-requiere n t op i e h =
    Segun-si (ltb (length t) n) salida (record { opcode = e; vacia = λ s. absurd (h s) })

segun_nombre-Segun :
    (atoi : String → ℕ) (t : List String)
    → Segun (opcode_esperado tabla (get_or t 0 "") (length t)) (segun_nombre atoi t)
unfolding segun_nombre dos_registros un_registro sin_registros
segun_nombre-Segun atoi t =
    Segun-si (str_eq (token t 0) "SET")
      (Segun-requiere 3 t inst_set (un_registro inst_set t 1 "" (atoi (token t 2))) refl (λ e. cc))
      (Segun-si (str_eq (token t 0) "SUM")
        (Segun-requiere 3 t inst_sum (dos_registros inst_sum t 1 2 "" 0) refl (λ e. cc))
        (Segun-si (str_eq (token t 0) "SUB")
          (Segun-requiere 3 t inst_sub (dos_registros inst_sub t 1 2 "" 0) refl (λ e. cc))
          (Segun-si (str_eq (token t 0) "JNZ")
            (Segun-requiere 3 t inst_jnz (un_registro inst_jnz t 1 "" (atoi (token t 2))) refl
              (λ e. cc))
            (Segun-si (str_eq (token t 0) "IO_GEN_SLEEP")
              (Segun-requiere 3 t inst_io_gen_sleep
                (sin_registros inst_io_gen_sleep (token t 1) (atoi (token t 2))) refl (λ e. cc))
              (Segun-si (str_eq (token t 0) "IO_STDIN_READ")
                (Segun-requiere 4 t inst_io_stdin_read
                  (dos_registros inst_io_stdin_read t 2 3 (token t 1) 0) refl (λ e. cc))
                (Segun-si (str_eq (token t 0) "IO_STDOUT_WRITE")
                  (Segun-requiere 4 t inst_io_stdout_write
                    (dos_registros inst_io_stdout_write t 2 3 (token t 1) 0) refl (λ e. cc))
                  (Segun-si (str_eq (token t 0) "IO_FS_CREATE")
                    (Segun-requiere 3 t inst_io_fs_create
                      (sin_registros inst_io_fs_create (archivo t) 0) refl (λ e. cc))
                    (Segun-si (str_eq (token t 0) "IO_FS_DELETE")
                      (Segun-requiere 3 t inst_io_fs_delete
                        (sin_registros inst_io_fs_delete (archivo t) 0) refl (λ e. cc))
                      (Segun-si (str_eq (token t 0) "IO_FS_TRUNCATE")
                        (Segun-requiere 4 t inst_io_fs_truncate
                          (un_registro inst_io_fs_truncate t 3 (archivo t) 0) refl (λ e. cc))
                        (Segun-si (str_eq (token t 0) "IO_FS_WRITE")
                          (Segun-requiere 6 t inst_io_fs_write
                            (dos_registros inst_io_fs_write t 3 4 (archivo t) (atoi (token t 5)))
                            refl (λ e. cc))
                          (Segun-si (str_eq (token t 0) "IO_FS_READ")
                            (Segun-requiere 6 t inst_io_fs_read
                              (dos_registros inst_io_fs_read t 3 4 (archivo t) (atoi (token t 5)))
                              refl (λ e. cc))
                            (Segun-si (str_eq (token t 0) "WAIT")
                              (Segun-requiere 2 t inst_wait (sin_registros inst_wait (token t 1) 0)
                                refl (λ e. cc))
                              (Segun-si (str_eq (token t 0) "SIGNAL")
                                (Segun-requiere 2 t inst_signal
                                  (sin_registros inst_signal (token t 1) 0) refl (λ e. cc))
                                (Segun-si (str_eq (token t 0) "MOV_IN")
                                  (Segun-requiere 3 t inst_mov_in
                                    (dos_registros inst_mov_in t 1 2 "" 0) refl (λ e. cc))
                                  (Segun-si (str_eq (token t 0) "MOV_OUT")
                                    (Segun-requiere 3 t inst_mov_out
                                      (dos_registros inst_mov_out t 1 2 "" 0) refl (λ e. cc))
                                    (Segun-si (str_eq (token t 0) "RESIZE")
                                      (Segun-requiere 2 t inst_resize
                                        (sin_registros inst_resize "" (atoi (token t 1))) refl
                                        (λ e. cc))
                                      (Segun-si (str_eq (token t 0) "COPY_STRING")
                                        (Segun-requiere 2 t inst_copy_string
                                          (sin_registros inst_copy_string "" (atoi (token t 1)))
                                          refl (λ e. cc))
                                        salida)))))))))))))))))

-- For every line, the opcode is the one that the table of the instructions gives: that of the first
-- token, and EXIT for a line without tokens, for a name that the table does not have, and for fewer
-- tokens than the instruction needs. In these cases of EXIT no other field of the instruction is set.
pub decoder_parsear-Segun :
    (atoi : String → ℕ) (t : List String)
    → Segun (opcode_esperado tabla (get_or t 0 "") (length t)) (decoder_parsear atoi t)
unfolding decoder_parsear
decoder_parsear-Segun atoi [] = salida
decoder_parsear-Segun atoi (t0 ∷ t) =
    let e : ltb (length (t0 ∷ t)) 1 ≡ false = ground arith in
    rw (e, decoder_parsear) (segun_nombre-Segun atoi (t0 ∷ t))
