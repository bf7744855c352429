-- ===== src/Cpu/Mmu/Traduccion.antt =====
-- mmu.c against the translation by the memory alone.
use recursos_so.Prelude.{
  ℕ, ◌+◌, ◌/◌, ◌≡◌, refl, sym, ap, ◌∙◌, subst, Bool, List, [], ◌∷◌, Option, none, some, ◌==◌, ltb,
  length, All, All-append, All-set, arith, Bool-cases, Option-cases, inl, inr,
}
use recursos_so.Modelo.{ContextoCpu}
use recursos_so.Cpu.Tlb.{
  Entrada, Tlb, es_de, buscar_entrada, tlb_lookup, victima, tlb_update, sin_pid,
}
use recursos_so.Cpu.Tlb.Leyes.{
  IsValida, tlb_update-IsValida, tlb_lookup-IsValida, tlb_clear_pid-IsValida,
}
use recursos_so.Cpu.Mmu.{Mmu, Memoria, direccion, mmu_set_contexto, mmu_traducir}

-- The translation without a TLB.
pub traduccion_directa : Memoria → ℕ → ℕ → Bool → ℕ → Option ℕ
traduccion_directa memoria tam_pag dir escritura pid =
    elim (memoria pid (dir / tam_pag) escritura) [
      | none ↦ none
      | some marco ↦ some (direccion tam_pag marco dir)
    ]

module _ (memoria : Memoria) where
  -- The entry is of that process, and has the frame that the memory gives.
  abbrev Vigente : ℕ → Entrada → Type 0
  Vigente pid e = (e.pid ≡ pid) × ((w : Bool) → memoria e.pid e.pagina w ≡ some e.marco)

  -- The TLB is valid, and holds only entries of the running process, with their frames.
  pub record IsCoherente (m : Mmu) : Type 0 where
    pub valida : IsValida m.tlb
    pub vigentes : All (Vigente m.pid_actual) m.tlb.entradas

  buscar_entrada-Vigente :
      (ahora pid pagina de : ℕ) (es : List Entrada) (marco : ℕ) (es1 : List Entrada)
      → All (Vigente de) es
      → buscar_entrada ahora pid pagina es ≡ some (marco, es1)
      → ((w : Bool) → memoria pid pagina w ≡ some marco) × All (Vigente de) es1
  unfolding buscar_entrada
  buscar_entrada-Vigente ahora pid pagina de [] marco es1 a h = ground arith
  buscar_entrada-Vigente ahora pid pagina de (e ∷ es) marco es1 (v, a) h =
      elim (Bool-cases (es_de pid pagina e)) [
        | inl hit ↦
            let de_e : (e.pid ≡ pid) × (e.pagina ≡ pagina) = ground arith in
            let m : e.marco ≡ marco = ground arith in
            let lista : record e { last_use = ahora } ∷ es ≡ es1 = ground arith in
            (
              (λ w.
                  ap (λ n. memoria n pagina w) (sym de_e.0)
                  ∙ ap (λ n. memoria e.pid n w) (sym de_e.1)
                  ∙ v.1 w
                  ∙ ap (λ n. some n) m),
              subst (All (Vigente de)) lista (v, a),
            )
        | inr miss ↦ elim (Option-cases (buscar_entrada ahora pid pagina es)) [
          | inl nada ↦ ground arith
          | inr ((marco1, es2), si) ↦
              let (frame, resto) = buscar_entrada-Vigente ahora pid pagina de es marco1 es2 a si in
              let m : marco1 ≡ marco = ground arith in
              let lista : e ∷ es2 ≡ es1 = ground arith in
              ((λ w. frame w ∙ ap (λ n. some n) m), subst (All (Vigente de)) lista (v, resto))
        ]
      ]

  tlb_lookup-Vigente :
      (pid pagina de : ℕ) (t : Tlb)
      → All (Vigente de) t.entradas
      → ((marco : ℕ)
          → (tlb_lookup pid pagina t).0 ≡ some marco
          → (w : Bool) → memoria pid pagina w ≡ some marco)
        × All (Vigente de) (tlb_lookup pid pagina t).1.entradas
  unfolding tlb_lookup
  tlb_lookup-Vigente pid pagina de t a =
      elim (Option-cases (buscar_entrada (t.clock_lru + 1) pid pagina t.entradas)) [
        | inl nada ↦ rw (nada, tlb_lookup) ((λ marco h w. ground arith), a)
        | inr ((marco1, es1), si) ↦
            let (frame, resto) =
              buscar_entrada-Vigente (t.clock_lru + 1) pid pagina de t.entradas marco1 es1 a si in
            rw (si, tlb_lookup)
              (
                (λ marco h w.
                    let m : marco1 ≡ marco = ground arith in frame w ∙ ap (λ n. some n) m),
                resto,
              )
      ]

  tlb_update-Vigente :
      (pid pagina marco : ℕ) (t : Tlb)
      → All (Vigente pid) t.entradas
      → ((w : Bool) → memoria pid pagina w ≡ some marco)
      → All (Vigente pid) (tlb_update pid pagina marco t).entradas
  unfolding tlb_update
  tlb_update-Vigente pid pagina marco t a h =
      let nueva : Entrada = record {
        pid = pid;
        pagina = pagina;
        marco = marco;
        last_use = t.clock_lru + 1;
      } in
      let una : All (Vigente pid) (nueva ∷ []) = ((refl, h), tt) in
      elim (Bool-cases (ltb (length t.entradas) t.max)) [
        | inl lugar ↦ rw lugar (All-append (Vigente pid) t.entradas (nueva ∷ []) a una)
        | inr lleno ↦ rw lleno (All-set (Vigente pid) t.entradas (victima t) nueva a (refl, h))
      ]

  sin_pid-todos : (pid : ℕ) (es : List Entrada) → All (Vigente pid) es → sin_pid pid es ≡ []
  unfolding sin_pid
  sin_pid-todos pid [] a = refl
  sin_pid-todos pid (e ∷ es) ((p, v), a) = ground (arith, sin_pid-todos pid es a)

  -- For a memory that does not change, and whose frame for a page does not depend on what the access
  -- is for, from a TLB that is valid and holds only entries of the running process with their frames:
  -- the translation is the one that the memory gives without a TLB, an error included, and the TLB
  -- keeps these properties.
  pub mmu_traducir-IsCoherente :
      ((pid pagina : ℕ) (a b : Bool) → memoria pid pagina a ≡ memoria pid pagina b)
      → (tam_pag dir : ℕ) (escritura : Bool) (m : Mmu) → IsCoherente m
      → ((mmu_traducir memoria tam_pag dir escritura m).0
          ≡ traduccion_directa memoria tam_pag dir escritura m.pid_actual)
        × IsCoherente (mmu_traducir memoria tam_pag dir escritura m).1
  unfolding mmu_traducir traduccion_directa
  mmu_traducir-IsCoherente igual tam_pag dir escritura m c =
      let pagina = dir / tam_pag in
      let (frame, resto) = tlb_lookup-Vigente m.pid_actual pagina m.pid_actual m.tlb c.vigentes in
      let valida = tlb_lookup-IsValida m.pid_actual pagina m.tlb c.valida in
      elim (Option-cases (tlb_lookup m.pid_actual pagina m.tlb).0) [
        | inr (marco, si) ↦
            rw (si, frame marco si escritura, mmu_traducir, traduccion_directa)
              (refl, record { valida = valida; vigentes = resto })
        | inl nada ↦ elim (Option-cases (memoria m.pid_actual pagina escritura)) [
          | inl error ↦
              rw (nada, error, mmu_traducir, traduccion_directa)
                (refl, record { valida = valida; vigentes = resto })
          | inr (marco, si) ↦
              rw (nada, si, mmu_traducir, traduccion_directa)
                (
                  refl,
                  record {
                    valida =
                        tlb_update-IsValida m.pid_actual pagina marco
                          (tlb_lookup m.pid_actual pagina m.tlb).1 valida;
                    vigentes =
                        tlb_update-Vigente m.pid_actual pagina marco
                          (tlb_lookup m.pid_actual pagina m.tlb).1 resto
                          (λ w. igual m.pid_actual pagina w escritura ∙ si);
                  },
                )
        ]
      ]

  -- From a TLB that is valid and holds only entries of the running process with their frames, the
  -- change to a context makes its process the running one, and the TLB has these properties for it.
  pub mmu_set_contexto-IsCoherente :
      (ctx : ContextoCpu) (m : Mmu)
      → IsCoherente m
      → ((mmu_set_contexto ctx m).pid_actual ≡ ctx.pid) × IsCoherente (mmu_set_contexto ctx m)
  unfolding mmu_set_contexto
  mmu_set_contexto-IsCoherente ctx m c = elim (Bool-cases (m.pid_actual == ctx.pid)) [
    | inl mismo ↦ rw mismo (ground arith, c)
    | inr otro ↦ rw otro (
      refl,
      record {
        valida = tlb_clear_pid-IsValida m.pid_actual m.tlb c.valida;
        vigentes =
            subst (All (Vigente ctx.pid))
              (sym (sin_pid-todos m.pid_actual m.tlb.entradas c.vigentes)) tt;
      },
    )
  ]
