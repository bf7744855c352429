-- ===== src/Modelo.antt =====
-- utils/src/model/model.h: the data that the modules of the system exchange.
-- A C integer is a number with its range stated where it matters; a text is the list of its bytes.
use recursos_so.Prelude.{ℕ, ◌<◌, ◌^◌, Bool, List}

-- reg_id_t
pub data RegId : Type 0 where
  reg_ax reg_bx reg_cx reg_dx reg_eax reg_ebx reg_ecx reg_edx reg_si reg_di : RegId

-- registros_t: the first four are bytes, the others 32-bit words.
pub record Registros : Type 0 where
  pub ax : ℕ
  pub bx : ℕ
  pub cx : ℕ
  pub dx : ℕ
  pub eax : ℕ
  pub ebx : ℕ
  pub ecx : ℕ
  pub edx : ℕ
  pub si : ℕ
  pub di : ℕ

pub record ContextoCpu : Type 0 where
  pub pid : ℕ
  pub pc : ℕ
  pub registros : Registros

-- t_motivo_desalojo
pub data MotivoDesalojo : Type 0 where
  motivo_fin_quantum motivo_io motivo_exit motivo_segfault motivo_desalojo cpu_continuar :
      MotivoDesalojo

pub record MemInitProceso : Type 0 where
  pub pid : ℕ
  pub path : List ℕ

pub record MemTraducir : Type 0 where
  pub pid : ℕ
  pub direccion_logica : ℕ

pub record MemRead : Type 0 where
  pub pid : ℕ
  pub direccion_logica : ℕ
  pub size : ℕ

-- `size` bytes of data
pub record MemWrite : Type 0 where
  pub pid : ℕ
  pub direccion_logica : ℕ
  pub buffer : List ℕ

pub record MemFetch : Type 0 where
  pub pid : ℕ
  pub pc : ℕ

pub record MemRespuestaTraduccion : Type 0 where
  pub correcto : Bool
  pub direccion_fisica : ℕ

pub record MemRespuestaLectura : Type 0 where
  pub correcto : Bool
  pub datos : List ℕ

pub record IoSleep : Type 0 where
  pub pid : ℕ
  pub tiempo : ℕ

pub record MemResize : Type 0 where
  pub pid : ℕ
  pub nuevo_tamanio : ℕ

-- Also t_io_stdout_write, which has the same fields.
pub record IoStdinRead : Type 0 where
  pub pid : ℕ
  pub direccion_logica : ℕ
  pub size : ℕ
  pub interfaz : List ℕ

abbrev pub IsByte : ℕ → Type 0
IsByte n = n < 256

abbrev pub IsU32 : ℕ → Type 0
IsU32 n = n < 2 ^ 32

-- The ranges of the fields.
pub record IsRegistros (r : Registros) : Type 0 where
  pub ax : r.ax < 256
  pub bx : r.bx < 256
  pub cx : r.cx < 256
  pub dx : r.dx < 256
  pub eax : r.eax < 2 ^ 32
  pub ebx : r.ebx < 2 ^ 32
  pub ecx : r.ecx < 2 ^ 32
  pub edx : r.edx < 2 ^ 32
  pub si : r.si < 2 ^ 32
  pub di : r.di < 2 ^ 32
