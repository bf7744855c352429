-- ===== src/Cpu/Decode/Rango.antt =====
-- decode.c: the number that an instruction carries.
use recursos_so.Prelude.{
  ℕ, ◌<◌, ◌^◌, ◌≡◌, refl, Bool, true, false, List, ltb, if◌then◌else◌, length, String, str_eq,
  arith,
}
use recursos_so.Cpu.Decode.{
  inst_set, inst_sum, inst_sub, inst_jnz, inst_io_gen_sleep, inst_io_stdin_read,
  inst_io_stdout_write, inst_io_fs_create, inst_io_fs_delete, inst_io_fs_truncate, inst_io_fs_write,
  inst_io_fs_read, inst_mov_in, inst_mov_out, inst_resize, inst_copy_string, inst_wait, inst_signal,
  inst_exit, Instruccion, inst_con, token, requiere, segun_nombre, decoder_parsear, dos_registros,
  un_registro, sin_registros, archivo,
}

record EnRango (i : Instruccion) : Type 0 where
  rango : i.operandos.inmediato < 2 ^ 32

Rango-si : (b : Bool) {i j : Instruccion} → EnRango i → EnRango j → EnRango (if b then i else j)
Rango-si true h k = h
Rango-si false h k = k

sin_numero : (i : Instruccion) → i.operandos.inmediato ≡ 0 → EnRango i
sin_numero i e = record { rango = omega arith }

Rango-requiere : (n : ℕ) (t : List String) (i : Instruccion) → EnRango i → EnRango (requiere n t i)
unfolding requiere
Rango-requiere n t i h = Rango-si (ltb (length t) n) (sin_numero (inst_con inst_exit) refl) h

segun_nombre-Rango :
    (atoi : String → ℕ) (t : List String)
    → ((s : String) → atoi s < 2 ^ 32)
    → EnRango (segun_nombre atoi t)
unfolding segun_nombre dos_registros un_registro sin_registros
segun_nombre-Rango atoi t rango =
    Rango-si (str_eq (token t 0) "SET")
      (Rango-requiere 3 t (un_registro inst_set t 1 "" (atoi (token t 2)))
        (record { rango = rango (token t 2) }))
      (Rango-si (str_eq (token t 0) "SUM")
        (Rango-requiere 3 t (dos_registros inst_sum t 1 2 "" 0)
          (sin_numero (dos_registros inst_sum t 1 2 "" 0) refl))
        (Rango-si (str_eq (token t 0) "SUB")
          (Rango-requiere 3 t (dos_registros inst_sub t 1 2 "" 0)
            (sin_numero (dos_registros inst_sub t 1 2 "" 0) refl))
          (Rango-si (str_eq (token t 0) "JNZ")
            (Rango-requiere 3 t (un_registro inst_jnz t 1 "" (atoi (token t 2)))
              (record { rango = rango (token t 2) }))
            (Rango-si (str_eq (token t 0) "IO_GEN_SLEEP")
              (Rango-requiere 3 t (sin_registros inst_io_gen_sleep (token t 1) (atoi (token t 2)))
                (record { rango = rango (token t 2) }))
              (Rango-si (str_eq (token t 0) "IO_STDIN_READ")
                (Rango-requiere 4 t (dos_registros inst_io_stdin_read t 2 3 (token t 1) 0)
                  (sin_numero (dos_registros inst_io_stdin_read t 2 3 (token t 1) 0) refl))
                (Rango-si (str_eq (token t 0) "IO_STDOUT_WRITE")
                  (Rango-requiere 4 t (dos_registros inst_io_stdout_write t 2 3 (token t 1) 0)
                    (sin_numero (dos_registros inst_io_stdout_write t 2 3 (token t 1) 0) refl))
                  (Rango-si (str_eq (token t 0) "IO_FS_CREATE")
                    (Rango-requiere 3 t (sin_registros inst_io_fs_create (archivo t) 0)
                      (sin_numero (sin_registros inst_io_fs_create (archivo t) 0) refl))
                    (Rango-si (str_eq (token t 0) "IO_FS_DELETE")
                      (Rango-requiere 3 t (sin_registros inst_io_fs_delete (archivo t) 0)
                        (sin_numero (sin_registros inst_io_fs_delete (archivo t) 0) refl))
                      (Rango-si (str_eq (token t 0) "IO_FS_TRUNCATE")
                        (Rango-requiere 4 t (un_registro inst_io_fs_truncate t 3 (archivo t) 0)
                          (sin_numero (un_registro inst_io_fs_truncate t 3 (archivo t) 0) refl))
                        (Rango-si (str_eq (token t 0) "IO_FS_WRITE")
                          (Rango-requiere 6 t
                            (dos_registros inst_io_fs_write t 3 4 (archivo t) (atoi (token t 5)))
                            (record { rango = rango (token t 5) }))
                          (Rango-si (str_eq (token t 0) "IO_FS_READ")
                            (Rango-requiere 6 t
                              (dos_registros inst_io_fs_read t 3 4 (archivo t) (atoi (token t 5)))
                              (record { rango = rango (token t 5) }))
                            (Rango-si (str_eq (token t 0) "WAIT")
                              (Rango-requiere 2 t (sin_registros inst_wait (token t 1) 0)
                                (sin_numero (sin_registros inst_wait (token t 1) 0) refl))
                              (Rango-si (str_eq (token t 0) "SIGNAL")
                                (Rango-requiere 2 t (sin_registros inst_signal (token t 1) 0)
                                  (sin_numero (sin_registros inst_signal (token t 1) 0) refl))
                                (Rango-si (str_eq (token t 0) "MOV_IN")
                                  (Rango-requiere 3 t (dos_registros inst_mov_in t 1 2 "" 0)
                                    (sin_numero (dos_registros inst_mov_in t 1 2 "" 0) refl))
                                  (Rango-si (str_eq (token t 0) "MOV_OUT")
                                    (Rango-requiere 3 t (dos_registros inst_mov_out t 1 2 "" 0)
                                      (sin_numero (dos_registros inst_mov_out t 1 2 "" 0) refl))
                                    (Rango-si (str_eq (token t 0) "RESIZE")
                                      (Rango-requiere 2 t
                                        (sin_registros inst_resize "" (atoi (token t 1)))
                                        (record { rango = rango (token t 1) }))
                                      (Rango-si (str_eq (token t 0) "COPY_STRING")
                                        (Rango-requiere 2 t
                                          (sin_registros inst_copy_string "" (atoi (token t 1)))
                                          (record { rango = rango (token t 1) }))
                                        (sin_numero (inst_con inst_exit) refl))))))))))))))))))

pub decoder_parsear-Rango :
    (atoi : String → ℕ) (t : List String)
    → ((s : String) → atoi s < 2 ^ 32)
    → (decoder_parsear atoi t).operandos.inmediato < 2 ^ 32
unfolding decoder_parsear
decoder_parsear-Rango atoi t rango =
    (Rango-si (ltb (length t) 1) (sin_numero (inst_con inst_exit) refl)
      (segun_nombre-Rango atoi t rango)).rango
