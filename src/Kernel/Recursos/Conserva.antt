-- ===== src/Kernel/Recursos/Conserva.antt =====
-- recurso_wait and recurso_signal: what they do to the instances of a resource.
use recursos_so.Prelude.{
  ◌&&◌, ℕ, ◌+◌, ◌*◌, ◌-◌, ◌≡◌, refl, Bool, true, false, List, [], ◌∷◌, ◌++◌, none, some, String,
  str_eq, str_eq_iff, arith, inl, inr, Option-cases, List-cases, All, ltb,
}
use recursos_so.Kernel.{Pcb, Recurso, Kernel, escribir_pcb}
use recursos_so.Kernel.Colas.{cuantos}
use recursos_so.Kernel.Recursos.{
  buscar, quitar, adquirir, recurso_wait, recurso_signal, soltar, entregar,
}
use recursos_so.Kernel.Recursos.Diccionario.{nombre-buscar, buscar_propio}
use recursos_so.Kernel.Recursos.Saldo.{
  veces, tenencias, libres, saldo, tenencias-escribir, veces-append, veces-quitar, libres-poner,
}

abbrev pub uno_si : Bool → ℕ
uno_si true = 1
uno_si false = 0

-- Whether the dictionary has the name.
unfoldable pub registrado : String → List Recurso → Bool
registrado n rs = elim (buscar n rs) [ none ↦ false | some _ ↦ true ]

-- The pointers in the queues are listed in `todos`, each once.
abbrev pub EnLista : List ℕ → List ℕ → Type 0
EnLista todos ps = All (λ p. cuantos p todos ≡ 1) ps

abbrev pub Registrados : Kernel → List ℕ → Type 0
Registrados k todos = All (λ r. EnLista todos r.cola_bloqueados) k.recursos

-- What a process gives up of `n` by a signal on `nombre`.
abbrev pub cede : String → String → List String → ℕ
cede n nombre xs = uno_si (str_eq nombre n && ltb 0 (veces n xs))

module _ (todos : List ℕ) where
  pub adquirir-tenencias :
      (n nombre : String) (h : ℕ → Pcb) (p : ℕ)
      → cuantos p todos ≡ 1
      → tenencias n (adquirir h p nombre) todos ≡ tenencias n h todos + uno_si (str_eq nombre n)
  unfolding veces
  adquirir-tenencias n nombre h p u =
      let v = record (h p) { recursos_adquiridos = (h p).recursos_adquiridos ++ nombre ∷ [] } in
      let e = tenencias-escribir n h p v todos in
      let e' = veces-append n (h p).recursos_adquiridos (nombre ∷ []) in
      let e2 : tenencias n (escribir_pcb h p v) todos + 1 * veces n (h p).recursos_adquiridos
          ≡ tenencias n h todos + 1 * veces n v.recursos_adquiridos =
        rw u at e in
      ground (arith, e2, e')

  pub entregar-saldo :
      (n nombre : String) (k : Kernel) (r : Recurso)
      → buscar nombre k.recursos ≡ some r
      → EnLista todos r.cola_bloqueados
      → saldo n (entregar k r nombre).0 todos ≡ saldo n k todos + uno_si (str_eq nombre n)
  unfolding entregar libres
  entregar-saldo n nombre k r h u =
      let en = nombre-buscar nombre k.recursos r h in
      let h' = buscar_propio nombre k.recursos r h in
      elim (List-cases r.cola_bloqueados) [
        | inl e ↦ ground (
          arith,
          str_eq_iff nombre n,
          libres-poner n (record r { instancias = r.instancias + 1 }) r k.recursos h',
        )
        | inr (desb, resto, e) ↦
            let u' : EnLista todos (desb ∷ resto) = rw e at u in
            ground (
              arith,
              str_eq_iff nombre n,
              libres-poner n (record r { cola_bloqueados = resto }) r k.recursos h',
              adquirir-tenencias n nombre k.pcbs desb u'.0,
            )
      ]

  -- For any list of PCBs that has the caller once, WAIT keeps the sum of the free instances and of
  -- those that the listed processes hold, for every resource and whatever the outcome.
  pub saldo-recurso_wait :
      (n nombre : String) (k : Kernel) (pcb : ℕ)
      → cuantos pcb todos ≡ 1
      → saldo n (recurso_wait k pcb nombre).0 todos ≡ saldo n k todos
  unfolding recurso_wait libres
  saldo-recurso_wait n nombre k pcb u = elim (Option-cases (buscar nombre k.recursos)) [
    | inl e ↦ rw (e, recurso_wait) refl
    | inr (r, e) ↦
        let e' = buscar_propio nombre k.recursos r e in
        ground (
          arith,
          nombre-buscar nombre k.recursos r e,
          str_eq_iff nombre n,
          adquirir-tenencias n nombre k.pcbs pcb u,
          libres-poner n (record r { instancias = r.instancias - 1 }) r k.recursos e',
          libres-poner n (record r { cola_bloqueados = r.cola_bloqueados ++ pcb ∷ [] }) r k.recursos
              e',
        )
  ]

  soltar-tenencias :
      (n nombre : String) (h : ℕ → Pcb) (s : ℕ)
      → cuantos s todos ≡ 1
      → tenencias n (soltar h (some s) nombre) todos + cede n nombre (h s).recursos_adquiridos
        ≡ tenencias n h todos
  unfolding soltar
  soltar-tenencias n nombre h s u =
      let v = record (h s) { recursos_adquiridos = quitar nombre (h s).recursos_adquiridos } in
      let e = tenencias-escribir n h s v todos in
      let e2 : tenencias n (escribir_pcb h s v) todos + 1 * veces n (h s).recursos_adquiridos
          ≡ tenencias n h todos + 1 * veces n v.recursos_adquiridos =
        rw u at e in
      ground (arith, e2, veces-quitar n nombre (h s).recursos_adquiridos)

  -- Where the resource exists, and the list of PCBs has the caller and each process of the resource's
  -- queue once: SIGNAL raises the sum of the free and the held instances of the resource by one, less
  -- the instance that the caller gives up if it holds one, and keeps the sum of every other resource.
  pub saldo-recurso_signal :
      (n nombre : String) (k : Kernel) (s : ℕ) (r : Recurso)
      → buscar nombre k.recursos ≡ some r
      → EnLista todos r.cola_bloqueados
      → cuantos s todos ≡ 1
      → saldo n (recurso_signal k nombre (some s)).0 todos
          + cede n nombre (k.pcbs s).recursos_adquiridos
        ≡ saldo n k todos + uno_si (str_eq nombre n)
  unfolding recurso_signal
  saldo-recurso_signal n nombre k s r h u us =
      let k' = record k { pcbs = soltar k.pcbs (some s) nombre } in
      let e = entregar-saldo n nombre k' r h u in
      let e' = soltar-tenencias n nombre k.pcbs s us in
      rw (h, recurso_signal) (omega (arith, e, e'))
