-- ===== src/Lib.antt =====
-- Verification of TP_Estructura_Base, the operating system simulator of this repository: a kernel that
-- plans processes, a CPU that runs them, a memory module and I/O interfaces, which talk over sockets.
--
-- The parts, and the files that model them (paths below TP_Estructura_Base):
--
-- - Kernel, Kernel/Colas: kernel/src/pcb/pcb.h and the queues of kernel/src/planificacion/planificacion.c.
--   A `t_pcb*` is a number and `pcbs` the heap it points into, since several queues hold the same PCB.
-- - Kernel/Recursos: kernel/src/peticiones/recursos.c, the resources with instances and queues of waiters.
-- - Kernel/Banquero: kernel/src/deteccion_deadlock/banquero.c. Kernel/Grafo: the wait-for graph of
--   kernel/src/deteccion_deadlock/grafo_espera.c. Banquero/Seguro and Grafo/Espera say of the PCBs and the
--   resources alone what a safe state and a deadlock are.
-- - Kernel/Algoritmo: kernel/src/planificacion/algoritmo.c, which process of READY is next.
-- - Kernel/Planificacion: kernel/src/planificacion/{largo_plazo,corto_plazo}.c and
--   kernel/src/peticiones/interrupciones.c, the moves between the queues.
-- - Kernel/Peticiones: kernel/src/peticiones/interrupciones_handlers.c and
--   planificacion_finalizar_proceso, what the CPU and the console ask of the kernel.
-- - Memoria/Frames: memoria/src/frames/frames.c. Memoria/Reemplazo: memoria/src/gestion/reemplazo.c.
--   Memoria/Segmentacion: memoria/src/gestion/segmentacion.c and memoria_ram.c; before the first creation
--   the code answers as with an empty table.
-- - Memoria/Swap: memoria/src/swap/swap.c. Memoria/Paginacion: memoria/src/gestion/paginas.c, on the frames,
--   the clock, the RAM and the swap; Alcance has its operations as the steps of one relation.
--   Memoria/Acceso: the accesses of memoria/src/gestion/paginas_io.c, and what other threads do
--   while the mutex is free in them. Memoria/Esquema: memoria/src/gestion/esquema_memoria.c, which calls
--   the operations by pages or by segments.
-- - Cpu/Registros: cpu/src/registros/registros.c and the arithmetic of cpu/src/instrucciones/operaciones.c.
--   Cpu/Tlb: cpu/src/tlb/tlb.c. Cpu/Mmu: cpu/src/mmu/mmu.c.
-- - Cpu/Decode: cpu/src/ciclo_instruccion/decode.c, on the tokens of a line. Cpu/Ejecucion: the
--   instructions of cpu/src/instrucciones, and the requests of cpu/src/adaptadores/cpu_memoria_adapter.c.
--   Cpu/Ciclo: cpu/src/ciclo_instruccion/ciclo.c, cpu/src/interrupciones/interrupciones.c and
--   cpu/src/adaptadores/cpu_dispatch_handler.c.
-- - Utils/Paquete, Utils/Serializacion: utils/src/paquete/paquete.c, utils/src/serializacion/serializacion.c.
--   Modelo: utils/src/model/model.h.
--
-- The kernel's operations take the state of the kernel and give it back. A handler is one function from
-- its first lock to its last, without other threads in between; the handlers of Peticiones call the
-- resources and then move processes with the functions of Planificacion, in the order of the code, and
-- both detectors of deadlocks read the queues and the resources that these two leave. The CPU runs the
-- instructions that it fetches and decodes; for an access its MMU asks the TLB and then the memory. To
-- the CPU the memory module is a parameter, a state with an answer to each request (`Servicio`), and so
-- are string_split and atoi. A page fault takes a free frame, or lets the clock choose a victim, which
-- goes to the swap.
-- What another module answers, the time that has passed, and the choice of the algorithm of the moment
-- are arguments.
--
-- Bounds: bytes, 32-bit words and the positions in a stream wrap around as in the code (`% 256`,
-- `% 2 ^ 32`); pids, counters of instances, semaphores, quanta and the clock of the TLB are numbers
-- without a bound. Allocations succeed. Loops over a queue or an array are structural. Three are on
-- fuel: the banker's has the number of processes plus two, and a round without progress ends it; the one
-- that gives back the resources has the names the process holds plus the entries of the queues, of which
-- each round takes one; the depth-first search has the number of nodes, of which each call visits
-- a new one. The cycle of the CPU may run for ever: it is a recursion on a list that says of
-- each round whether an interruption comes, and its theorems ask for an interruption in one of them.
--
-- A read or a write of a paged memory may retry for ever against other threads: it is a recursion on a
-- list of what they do in each round. With nobody else, as many rounds as bytes are enough.
--
-- Not modelled: what other threads do between two locks of a handler of the kernel, the messages that the
-- memory answers, DialFS, the console, and what only reads files, opens sockets, starts threads or logs.
pub mod Prelude
pub mod Modelo
pub mod Kernel
pub mod Memoria
pub mod Cpu
pub mod Utils
