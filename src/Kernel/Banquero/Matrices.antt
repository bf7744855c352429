-- ===== src/Kernel/Banquero/Matrices.antt =====
-- The rows of the matrices of banquero.c, as functions of the resource.
use recursos_so.Prelude.{
  ℕ, zero, suc, ◌+◌, ◌<◌, ◌≤◌, ◌≡◌, ◌≢◌, ◌↔◌, refl, sym, ap, ◌∙◌, subst, inl, inr, true, List, [],
  ◌∷◌, map, String, str_eq, str_eq_iff, if◌then◌else◌, length, get_or, replicate, arith, All,
  Bool-cases, ltb,
}
use recursos_so.Kernel.{Pcb, Recurso}
use recursos_so.Kernel.Banquero.{anotar, fila_asignado, en_cola, fila_necesidad, puede, sumar}
use recursos_so.Kernel.Banquero.Seguro.{cuantas, Distintos}

cons_eq : (x y : ℕ) (xs ys : List ℕ) → x ≡ y → xs ≡ ys → (x ∷ xs) ≡ (y ∷ ys)
cons_eq x y xs ys e f = rw (e, f) refl

pub map-igual :
    (f g : Recurso → ℕ) → ((r : Recurso) → f r ≡ g r) → (rs : List Recurso) → map f rs ≡ map g rs
map-igual f g e [] = refl
map-igual f g e (r ∷ rs) = cons_eq (f r) (g r) _ _ (e r) (map-igual f g e rs)

sin_cambio :
    (g : Recurso → ℕ) (nombre : String) (rs : List Recurso)
    → All (λ r. r.nombre ≢ nombre) rs
    → map g rs ≡ map (λ r. g r + (if str_eq nombre r.nombre then 1 else 0)) rs
sin_cambio g nombre [] a = refl
sin_cambio g nombre (r ∷ rs) (ne, a) = elim (Bool-cases (str_eq nombre r.nombre)) [
  | inl e ↦ absurd (ne (sym ((str_eq_iff nombre r.nombre).0 e)))
  | inr e ↦ cons_eq _ _ _ _ (rw e (omega arith)) (sin_cambio g nombre rs a)
]

anotar-map :
    (g : Recurso → ℕ) (nombre : String) (rs : List Recurso)
    → Distintos rs
    → anotar rs nombre (map g rs) ≡ map (λ r. g r + (if str_eq nombre r.nombre then 1 else 0)) rs
unfolding anotar
anotar-map g nombre [] d = refl
anotar-map g nombre (r ∷ rs) (a, d) = elim (Bool-cases (str_eq nombre r.nombre)) [
  | inl e ↦
      rw (e, anotar)
        (cons_eq _ _ _ _ refl (
          sin_cambio g nombre rs
            (subst (λ n. All (λ r'. r'.nombre ≢ n) rs) (sym ((str_eq_iff nombre r.nombre).0 e)) a)))
  | inr e ↦ rw (e, anotar) (cons_eq _ _ _ _ (omega arith) (anotar-map g nombre rs d))
]

pub fila-map :
    (rs : List Recurso)
    → Distintos rs
    → (nombres : List String) (g : Recurso → ℕ)
    → fila_asignado rs nombres (map g rs) ≡ map (λ r. g r + cuantas r.nombre nombres) rs
unfolding fila_asignado cuantas
fila-map rs d [] g = map-igual _ _ (λ r. omega arith) rs
fila-map rs d (x ∷ nombres) g =
    ap (fila_asignado rs nombres) (anotar-map g x rs d)
    ∙ fila-map rs d nombres (λ r. g r + (if str_eq x r.nombre then 1 else 0))
    ∙ map-igual _ _ (λ r. omega arith) rs

pub ceros-map : (rs : List Recurso) → ◌≡◌ {A = List ℕ} (replicate (length rs) 0) (map (λ r. 0) rs)
ceros-map [] = refl
ceros-map (r ∷ rs) = ap (◌∷◌ 0) (ceros-map rs)

pub sumar-map :
    (f g : Recurso → ℕ) (rs : List Recurso) → sumar (map f rs) (map g rs) ≡ map (λ r. f r + g r) rs
unfolding sumar
sumar-map f g [] = refl
sumar-map f g (r ∷ rs) = ap (◌∷◌ (f r + g r)) (sumar-map f g rs)

pub necesidad-map :
    (h : ℕ → Pcb) (rs : List Recurso) (pid : ℕ)
    → fila_necesidad h rs pid ≡ map (λ r. if en_cola h pid r.cola_bloqueados then 1 else 0) rs
unfolding fila_necesidad
necesidad-map h [] pid = refl
necesidad-map h (r ∷ rs) pid =
    ap (◌∷◌ (if en_cola h pid r.cola_bloqueados then 1 else 0)) (necesidad-map h rs pid)

pub puede-map :
    (n l : Recurso → ℕ) (rs : List Recurso)
    → (puede (map n rs) (map l rs) ≡ true) ↔ All (λ r. n r ≤ l r) rs
unfolding puede
puede-map n l [] = ((λ e. tt), (λ a. refl))
puede-map n l (r ∷ rs) = elim (Bool-cases (ltb (l r) (n r))) [
  | inl e ↦ rw (e, puede) ((λ f. absurd (cc f)), (λ (f, a). absurd (ground arith)))
  | inr e ↦
      rw (e, puede)
        ((λ f. (ground arith, (puede-map n l rs).0 f)), (λ (f, a). (puede-map n l rs).1 a))
]

pub All-igual :
    (P Q : Recurso → Type 0)
    → ((r : Recurso) → P r ↔ Q r)
    → (rs : List Recurso) → All P rs ↔ All Q rs
All-igual P Q e [] = ((λ a. tt), (λ a. tt))
All-igual P Q e (r ∷ rs) = (
  (λ (p, a). ((e r).0 p, (All-igual P Q e rs).0 a)),
  (λ (q, a). ((e r).1 q, (All-igual P Q e rs).1 a)),
)

pub get_or-map :
    (f : ℕ → List ℕ) (xs : List ℕ) (i : ℕ)
    → i < length xs
    → get_or (map f xs) i [] ≡ f (get_or xs i 0)
get_or-map f [] i l = elim l [ ]
get_or-map f (x ∷ xs) zero l = refl
get_or-map f (x ∷ xs) (suc i) l = get_or-map f xs i (omega arith)
