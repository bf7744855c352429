-- ===== src/Kernel/Peticiones/Esperas.antt =====
-- What the operations on the resources do to the queues of waiters, and what they leave alone.
use recursos_so.Prelude.{
  ℕ, zero, suc, ◌+◌, ◌≡◌, refl, ap, ◌∙◌, inl, inr, List, [], ◌∷◌, ◌++◌, Option, none, some, arith,
  Option-cases, List-cases, String, str_eq_iff,
}
use recursos_so.Kernel.{Recurso, Kernel}
use recursos_so.Kernel.Colas.{cuantos, cuantos-append}
use recursos_so.Kernel.Recursos.{
  buscar, poner, soltar, entregar, devolver, con_nombres, liberar_bucle,
}
use recursos_so.Kernel.Recursos.Diccionario.{buscar_propio}
use recursos_so.Kernel.Planificacion.Movimientos.{esperas, CoherenteMas}

-- The queues, the states and the pids are the same.
pub record Mismas (k k' : Kernel) : Type 0 where
  pub new : k'.cola_new ≡ k.cola_new
  pub ready : k'.cola_ready ≡ k.cola_ready
  pub exec : k'.cola_exec ≡ k.cola_exec
  pub blocked : k'.cola_blocked ≡ k.cola_blocked
  pub exit : k'.cola_exit ≡ k.cola_exit
  pub estado : (q : ℕ) → (k'.pcbs q).estado ≡ (k.pcbs q).estado
  pub pid : (q : ℕ) → (k'.pcbs q).pid ≡ (k.pcbs q).pid

pub Mismas-refl : (k : Kernel) → Mismas k k
Mismas-refl k = record {
  new = refl;
  ready = refl;
  exec = refl;
  blocked = refl;
  exit = refl;
  estado = λ q. refl;
  pid = λ q. refl;
}

pub Mismas-trans : {k k1 k2 : Kernel} → Mismas k k1 → Mismas k1 k2 → Mismas k k2
Mismas-trans a b = record {
  new = b.new ∙ a.new;
  ready = b.ready ∙ a.ready;
  exec = b.exec ∙ a.exec;
  blocked = b.blocked ∙ a.blocked;
  exit = b.exit ∙ a.exit;
  estado = λ q. b.estado q ∙ a.estado q;
  pid = λ q. b.pid q ∙ a.pid q;
}

-- A change of the waiters alone.
pub Mismas-Coherente :
    (f g : ℕ → ℕ) (k k' : Kernel)
    → Mismas k k'
    → ((q : ℕ) → esperas q k'.recursos + g q ≡ esperas q k.recursos + f q)
    → CoherenteMas f k
    → CoherenteMas g k'
Mismas-Coherente f g k k' m h c q = ground (
  arith,
  c q,
  h q,
  m.estado q,
  ap (cuantos q) m.new,
  ap (cuantos q) m.ready,
  ap (cuantos q) m.exec,
  ap (cuantos q) m.blocked,
  ap (cuantos q) m.exit,
)

pub esperas-poner :
    (q : ℕ) (v r : Recurso) (rs : List Recurso)
    → buscar v.nombre rs ≡ some r
    → esperas q (poner v rs) + cuantos q r.cola_bloqueados
      ≡ esperas q rs + cuantos q v.cola_bloqueados
unfolding buscar poner esperas
esperas-poner q v r [] h = cc
esperas-poner q v r (x ∷ rs) h =
    ground (arith, str_eq_iff x.nombre v.nombre, esperas-poner q v r rs)

-- The process that `entregar` names, if any.
abbrev pub nuevos : Option ℕ → List ℕ
nuevos none = []
nuevos (some p) = p ∷ []

pub entregar-esperas :
    (k : Kernel) (r : Recurso) (nombre : String) (q : ℕ)
    → buscar nombre k.recursos ≡ some r
    → esperas q (entregar k r nombre).0.recursos + cuantos q (nuevos (entregar k r nombre).1)
      ≡ esperas q k.recursos
unfolding entregar cuantos
entregar-esperas k r nombre q h =
    let h' = buscar_propio nombre k.recursos r h in
    elim (List-cases r.cola_bloqueados) [
      | inl e ↦
          ground
            (arith, esperas-poner q (record r { instancias = r.instancias + 1 }) r k.recursos h')
      | inr (desb, resto, e) ↦ ground (
        arith,
        esperas-poner q (record r { cola_bloqueados = resto }) r k.recursos h',
        ap (cuantos q) e,
      )
    ]

pub entregar-Mismas :
    (k : Kernel) (r : Recurso) (nombre : String) → Mismas k (entregar k r nombre).0
unfolding entregar
entregar-Mismas k r nombre = elim (List-cases r.cola_bloqueados) [
  | inl e ↦
      rw (e, entregar)
        (record {
          new = refl;
          ready = refl;
          exec = refl;
          blocked = refl;
          exit = refl;
          estado = λ q. refl;
          pid = λ q. refl;
        })
  | inr (desb, resto, e) ↦
      rw (e, entregar)
        (record {
          new = refl;
          ready = refl;
          exec = refl;
          blocked = refl;
          exit = refl;
          estado = λ q. ground arith;
          pid = λ q. ground arith;
        })
]

pub soltar-Mismas :
    (k : Kernel) (s : Option ℕ) (nombre : String)
    → Mismas k (record k { pcbs = soltar k.pcbs s nombre })
unfolding soltar
soltar-Mismas k none nombre = Mismas-refl k
soltar-Mismas k (some p) nombre = record {
  new = refl;
  ready = refl;
  exec = refl;
  blocked = refl;
  exit = refl;
  estado = λ q. ground arith;
  pid = λ q. ground arith;
}

con_nombres-Mismas : (k : Kernel) (p : ℕ) (xs : List String) → Mismas k (con_nombres k p xs)
con_nombres-Mismas k p xs = record {
  new = refl;
  ready = refl;
  exec = refl;
  blocked = refl;
  exit = refl;
  estado = λ q. ground arith;
  pid = λ q. ground arith;
}

devolver-Mismas : (k : Kernel) (nombre : String) → Mismas k (devolver k nombre).0
unfolding devolver
devolver-Mismas k nombre = elim (Option-cases (buscar nombre k.recursos)) [
  | inl e ↦ rw (e, devolver) (Mismas-refl k)
  | inr (r, e) ↦ rw (e, devolver) (entregar-Mismas k r nombre)
]

devolver-esperas :
    (k : Kernel) (nombre : String) (q : ℕ)
    → esperas q (devolver k nombre).0.recursos + cuantos q (devolver k nombre).1
      ≡ esperas q k.recursos
unfolding devolver cuantos
devolver-esperas k nombre q = elim (Option-cases (buscar nombre k.recursos)) [
  | inl e ↦ rw (e, devolver) (omega arith)
  | inr (r, e) ↦ ground (arith, entregar-esperas k r nombre q e)
]

-- The loop moves waiters into its result, one by one, and moves nothing else.
pub liberar_bucle-esperas :
    (fuel : ℕ) (k : Kernel) (p : ℕ) (ds : List ℕ) (k' : Kernel) (ds' : List ℕ)
    → liberar_bucle fuel k p ds ≡ some (k', ds')
    → Mismas k k'
      × ((q : ℕ) → esperas q k'.recursos + cuantos q ds' ≡ esperas q k.recursos + cuantos q ds)
unfolding liberar_bucle
liberar_bucle-esperas zero k p ds k' ds' h = elim (List-cases (k.pcbs p).recursos_adquiridos) [
  | inl e ↦
      let h' : ◌≡◌ {A = Option (Kernel × List ℕ)} (some (k, ds)) (some (k', ds')) =
        rw (e, liberar_bucle) at h in
      let e1 : k ≡ k' = cc in let e2 : ds ≡ ds' = cc in rw (← e1, ← e2) (Mismas-refl k, λ q. refl)
  | inr (x, xs, e) ↦ absurd (cc (rw (e, liberar_bucle) at h))
]
liberar_bucle-esperas (suc fuel) k p ds k' ds' h =
    elim (List-cases (k.pcbs p).recursos_adquiridos) [
      | inl e ↦
          let h' : ◌≡◌ {A = Option (Kernel × List ℕ)} (some (k, ds)) (some (k', ds')) =
            rw (e, liberar_bucle) at h in
          let e1 : k ≡ k' = cc in
          let e2 : ds ≡ ds' = cc in rw (← e1, ← e2) (Mismas-refl k, λ q. refl)
      | inr (x, xs, e) ↦
          let k1 = con_nombres k p xs in
          let (m, b) =
            liberar_bucle-esperas fuel (devolver k1 x).0 p (ds ++ (devolver k1 x).1) k' ds'
              (rw (e, liberar_bucle) at h) in
          (
            Mismas-trans (con_nombres-Mismas k p xs) (Mismas-trans (devolver-Mismas k1 x) m),
            λ q. omega (arith, b q, devolver-esperas k1 x q, cuantos-append q ds (devolver k1 x).1),
          )
    ]
