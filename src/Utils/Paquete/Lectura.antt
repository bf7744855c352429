-- ===== src/Utils/Paquete/Lectura.antt =====
-- What a read gives where the bytes that a write leaves come next in the stream.
use recursos_so.Prelude.{
  ℕ, ◌+◌, ◌%◌, ◌^◌, ◌<◌, ◌≡◌, refl, sym, ap, ◌∙◌, Bool, true, false, List, [], ◌∷◌, ◌++◌, some, ltb,
  if◌then◌else◌, length, take, drop, All, arith, length-append, take-append_length,
  drop-append_length,
}
use recursos_so.Utils.Paquete.{
  Buffer, buffer_read, bytes_uint32, de_bytes, paquete_read_uint8, paquete_read_uint32,
  paquete_read_bool, paquete_read_buffer, hasta_nul, paquete_read_string,
}

-- `resto` is what is left to read; the stream is short enough for its positions.
pub record Pendiente (b : Buffer) (resto : List ℕ) : Type 0 where
  pub leido : List ℕ
  pub todo : b.stream ≡ leido ++ resto
  pub posicion : b.offset ≡ length leido
  pub corto : length b.stream < 2 ^ 32

append_assoc : (xs ys zs : List ℕ) → (xs ++ ys) ++ zs ≡ xs ++ (ys ++ zs)
append_assoc [] ys zs = refl
append_assoc (x ∷ xs) ys zs = ap (◌∷◌ x) (append_assoc xs ys zs)

cabe : (n k m w : ℕ) → n ≡ k + m → n < w → k % w ≡ k
cabe n k m w e l = grind arith

no_corta : (n k m : ℕ) → n ≡ k + m → ltb n k ≡ false
no_corta n k m e = ground arith

drop-leido : (b : Buffer) (resto : List ℕ) (p : Pendiente b resto) → drop b.offset b.stream ≡ resto
drop-leido b resto p =
    ap (λ n. drop n b.stream) p.posicion
    ∙ ap (drop (length p.leido)) p.todo
    ∙ drop-append_length p.leido resto

pub buffer_read-Pendiente :
    (b : Buffer) (d resto : List ℕ)
    → Pendiente b (d ++ resto)
    → (b1 : Buffer) × (buffer_read (length d) b ≡ some (d, b1)) × Pendiente b1 resto
unfolding buffer_read
buffer_read-Pendiente b d resto p =
    let fin = b.offset + length d in
    let largo : length b.stream ≡ fin + length resto =
      ap (length {A = ℕ}) p.todo
      ∙ omega (arith, p.posicion, length-append p.leido (d ++ resto), length-append d resto) in
    let sin_vuelta : fin % 2 ^ 32 ≡ fin =
      cabe (length b.stream) fin (length resto) (2 ^ 32) largo p.corto in
    let leido : take (length d) (drop b.offset b.stream) ≡ d =
      ap (take (length d)) (drop-leido b (d ++ resto) p) ∙ take-append_length d resto in
    (
      record b { offset = fin },
      rw (sin_vuelta, no_corta (length b.stream) fin (length resto) largo, leido) refl,
      record {
        leido = p.leido ++ d;
        todo = p.todo ∙ sym (append_assoc p.leido d resto);
        posicion = omega (arith, p.posicion, length-append p.leido d);
        corto = p.corto;
      },
    )

pub de_bytes-bytes_uint32 : (v : ℕ) → v < 2 ^ 32 → de_bytes (bytes_uint32 v) ≡ v
unfolding de_bytes bytes_uint32
de_bytes-bytes_uint32 v l = omega arith

pub paquete_read_uint8-Pendiente :
    (x v : ℕ) (b : Buffer) (resto : List ℕ)
    → Pendiente b (v ∷ resto)
    → (b1 : Buffer) × (paquete_read_uint8 x b ≡ (true, v, b1)) × Pendiente b1 resto
unfolding paquete_read_uint8 de_bytes
paquete_read_uint8-Pendiente x v b resto p =
    let (b1, e, q) = buffer_read-Pendiente b (v ∷ []) resto p in
    (b1, rw (e, paquete_read_uint8) (ground arith), q)

pub paquete_read_uint32-Pendiente :
    (x v : ℕ) (b : Buffer) (resto : List ℕ)
    → v < 2 ^ 32
    → Pendiente b (bytes_uint32 v ++ resto)
    → (b1 : Buffer) × (paquete_read_uint32 x b ≡ (true, v, b1)) × Pendiente b1 resto
unfolding paquete_read_uint32 bytes_uint32
paquete_read_uint32-Pendiente x v b resto l p =
    let (b1, e, q) = buffer_read-Pendiente b (bytes_uint32 v) resto p in
    (b1, rw (e, paquete_read_uint32) (ap (λ n. (true, n, b1)) (de_bytes-bytes_uint32 v l)), q)

abbrev pub byte_bool : Bool → ℕ
byte_bool v = if v then 1 else 0

pub paquete_read_bool-Pendiente :
    (x v : Bool) (b : Buffer) (resto : List ℕ)
    → Pendiente b (byte_bool v ∷ resto)
    → (b1 : Buffer) × (paquete_read_bool x b ≡ (true, v, b1)) × Pendiente b1 resto
unfolding paquete_read_bool de_bytes
paquete_read_bool-Pendiente x true b resto p =
    let (b1, e, q) = buffer_read-Pendiente b (1 ∷ []) resto p in
    (b1, rw (e, paquete_read_bool) refl, q)
paquete_read_bool-Pendiente x false b resto p =
    let (b1, e, q) = buffer_read-Pendiente b (0 ∷ []) resto p in
    (b1, rw (e, paquete_read_bool) refl, q)

pub paquete_read_buffer-Pendiente :
    (datos : List ℕ) (b : Buffer) (resto : List ℕ)
    → length datos < 2 ^ 32
    → Pendiente b (bytes_uint32 (length datos) ++ (datos ++ resto))
    → (b1 : Buffer) × (paquete_read_buffer b ≡ (some datos, b1)) × Pendiente b1 resto
unfolding paquete_read_buffer bytes_uint32
paquete_read_buffer-Pendiente datos b resto l p =
    let (b1, e, q) = buffer_read-Pendiente b (bytes_uint32 (length datos)) (datos ++ resto) p in
    let (b2, e2, q2) = buffer_read-Pendiente b1 datos resto q in
    (b2, rw (e, de_bytes-bytes_uint32 (length datos) l, e2, paquete_read_buffer) refl, q2)

-- A text of C: no byte of it is zero.
abbrev pub IsTexto : List ℕ → Type 0
IsTexto s = All (λ x. 0 < x) s

pub hasta_nul-texto : (s : List ℕ) → IsTexto s → hasta_nul (s ++ 0 ∷ []) ≡ s
unfolding hasta_nul
hasta_nul-texto [] h = refl
hasta_nul-texto (x ∷ s) (l, h) = ground (arith, hasta_nul-texto s h)

pub paquete_read_string-Pendiente :
    (s : List ℕ) (b : Buffer) (resto : List ℕ)
    → IsTexto s
    → length (s ++ 0 ∷ []) < 2 ^ 32
    → Pendiente b (bytes_uint32 (length (s ++ 0 ∷ [])) ++ ((s ++ 0 ∷ []) ++ resto))
    → (b1 : Buffer) × (paquete_read_string b ≡ (some s, b1)) × Pendiente b1 resto
unfolding paquete_read_string
paquete_read_string-Pendiente s b resto h l p =
    let (b1, e, q) = paquete_read_buffer-Pendiente (s ++ 0 ∷ []) b resto l p in
    (b1, rw (e, hasta_nul-texto s h, paquete_read_string) refl, q)

append_nil : (xs : List ℕ) → xs ++ [] ≡ xs
append_nil [] = refl
append_nil (x ∷ xs) = ap (◌∷◌ x) (append_nil xs)

-- A package that was just written is read from its start.
pub nuevo : (s : List ℕ) → length s < 2 ^ 32 → Pendiente (record { stream = s; offset = 0 }) s
nuevo s l = record { leido = []; todo = refl; posicion = refl; corto = l }

pub nuevo_datos :
    (inicio datos : List ℕ)
    → length inicio + length datos < 2 ^ 32
    → Pendiente (record { stream = inicio ++ datos; offset = 0 }) (inicio ++ (datos ++ []))
nuevo_datos inicio datos l = record {
  leido = [];
  todo = ap (λ d. inicio ++ d) (sym (append_nil datos));
  posicion = refl;
  corto = omega (arith, length-append inicio datos);
}
