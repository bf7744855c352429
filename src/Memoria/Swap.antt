-- ===== src/Memoria/Swap.antt =====
-- memoria/src/swap/swap.c. The files are a list, one for each process that has one; that a file can be
-- opened for writing is a parameter, and what is then written is written whole.
pub mod Contenido
use recursos_so.Prelude.{
  ℕ, ◌+◌, ◌-◌, ◌*◌, Bool, true, false, List, [], ◌∷◌, ◌++◌, Option, none, some, if◌then◌else◌, ◌==◌,
  length, take, drop, replicate,
}

pub record Archivo : Type 0 where
  pub pid : ℕ
  pub contenido : List ℕ

unfoldable pub archivo_de : ℕ → List Archivo → Option (List ℕ)
archivo_de pid [] = none
archivo_de pid (a ∷ fs) = if a.pid == pid then some a.contenido else archivo_de pid fs

unfoldable pub guardar_archivo : ℕ → List ℕ → List Archivo → List Archivo
guardar_archivo pid contenido [] = record { pid = pid; contenido = contenido } ∷ []
guardar_archivo pid contenido (a ∷ fs) =
    if a.pid == pid
    then record a { contenido = contenido } ∷ fs
    else a ∷ guardar_archivo pid contenido fs

-- ftruncate: a file that is longer is cut, and one that is shorter gets zeros.
unfoldable pub truncar : ℕ → List ℕ → List ℕ
truncar n f = take n f ++ replicate (n - length f) 0

-- lseek and write
unfoldable pub escribir_en : ℕ → List ℕ → List ℕ → List ℕ
escribir_en offset datos f = take offset f ++ (datos ++ drop (offset + length datos) f)

-- The file of the process; O_CREAT makes an empty one.
unfoldable pub abrir : ℕ → List Archivo → List ℕ
unfolding archivo_de
abrir pid fs = elim (archivo_de pid fs) [ none ↦ [] | some f ↦ f ]

-- Whether it was written, and the files.
unfoldable pub swap_escribir_pagina : ℕ → Bool → ℕ → ℕ → List ℕ → List Archivo → Bool × List Archivo
unfolding abrir guardar_archivo truncar escribir_en
swap_escribir_pagina tam_pagina abre pid nro_pagina contenido fs =
    if abre
    then (
      true,
      guardar_archivo pid
          (escribir_en (nro_pagina * tam_pagina) contenido
            (truncar (nro_pagina * tam_pagina + tam_pagina) (abrir pid fs)))
          fs,
    )
    else (false, fs)

-- `none` is false: there is no file, or it has not the whole page.
unfoldable pub swap_leer_pagina : ℕ → ℕ → ℕ → List Archivo → Option (List ℕ)
unfolding archivo_de
swap_leer_pagina tam_pagina pid nro_pagina fs = elim (archivo_de pid fs) [
  | none ↦ none
  | some f ↦
      let leidos = take tam_pagina (drop (nro_pagina * tam_pagina) f) in
      if length leidos == tam_pagina then some leidos else none
]

-- unlink
unfoldable pub swap_borrar_proceso : ℕ → List Archivo → List Archivo
swap_borrar_proceso pid [] = []
swap_borrar_proceso pid (a ∷ fs) = if a.pid == pid then fs else a ∷ swap_borrar_proceso pid fs
